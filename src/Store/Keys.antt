-- ===== src/Store/Keys.antt =====
-- The names of the keys, and that no two things are kept at one key.
use muster_chat.Base.{◌≡◌, ◌≢◌, refl, sym, ◌∷◌, ◌++◌, Text, codes, arith}

unfoldable pub agents_key : Text
agents_key = codes "muster2:agents"

unfoldable pub agent_key : Text → Text
agent_key a = codes "muster2:agent:" ++ a

unfoldable pub presence_key : Text → Text
presence_key a = codes "muster2:presence:" ++ a

unfoldable pub inbox_key : Text → Text
inbox_key a = codes "muster2:inbox:" ++ a

unfoldable pub cursor_key : Text → Text
cursor_key a = codes "muster2:cursor:" ++ a

unfoldable pub rate_key : Text → Text → Text
rate_key kind a = codes "muster2:rate:" ++ (kind ++ (b':' ∷ a))

unfoldable pub notify_channel : Text → Text
notify_channel a = codes "muster2:notify:" ++ a

abbrev pub chat_kind : Text
chat_kind = codes "chat"

abbrev pub announce_kind : Text
announce_kind = codes "announce"

-- What the server keeps, by the thing that it is kept for.
pub data Key : Type 0 where
  agents : Key
  agent presence inbox cursor chat_rate announce_rate : Text → Key

unfoldable pub key_text : Key → Text
unfolding agents_key agent_key presence_key inbox_key cursor_key rate_key
key_text agents = agents_key
key_text (agent a) = agent_key a
key_text (presence a) = presence_key a
key_text (inbox a) = inbox_key a
key_text (cursor a) = cursor_key a
key_text (chat_rate a) = rate_key chat_kind a
key_text (announce_rate a) = rate_key announce_kind a

-- Two things that are kept at one key are the same thing, whatever the addresses.
pub key_text-injective : (x y : Key) → key_text x ≡ key_text y → x ≡ y
unfolding key_text
key_text-injective agents agents h = refl
key_text-injective (agent a) (agent b) h = cc
key_text-injective (presence a) (presence b) h = cc
key_text-injective (inbox a) (inbox b) h = cc
key_text-injective (cursor a) (cursor b) h = cc
key_text-injective (chat_rate a) (chat_rate b) h = cc
key_text-injective (announce_rate a) (announce_rate b) h = cc
key_text-injective _ _ h = absurd (ground arith)

-- the pairs of keys that the operations on inboxes and rates tell apart
pub cursor-ne-inbox : (a b : Text) → cursor_key a ≢ inbox_key b
unfolding cursor_key inbox_key
cursor-ne-inbox a b h = ground arith

pub inbox-ne-cursor : (a b : Text) → inbox_key a ≢ cursor_key b
inbox-ne-cursor a b h = cursor-ne-inbox b a (sym h)

pub cursor_key-injective : (a b : Text) → cursor_key a ≡ cursor_key b → a ≡ b
unfolding cursor_key
cursor_key-injective a b h = cc

pub inbox_key-injective : (a b : Text) → inbox_key a ≡ inbox_key b → a ≡ b
unfolding inbox_key
inbox_key-injective a b h = cc

pub rate-ne-inbox : (kind a b : Text) → rate_key kind a ≢ inbox_key b
unfolding rate_key inbox_key
rate-ne-inbox kind a b h = ground arith

pub rate-ne-cursor : (kind a b : Text) → rate_key kind a ≢ cursor_key b
unfolding rate_key cursor_key
rate-ne-cursor kind a b h = ground arith
