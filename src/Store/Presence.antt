-- ===== src/Store/Presence.antt =====
-- `touch_presence` and `clear_presence`: which connection an agent is online through.
use muster_chat.Base.{
  ℕ, ◌≡◌, ◌≢◌, ◌<◌, refl, Bool, true, false, [], ◌∷◌, Option, none, some, Text, codes, ◌==◌, ==_iff,
  ==_sound, ◌↔◌, ◌⊎◌, lookup, decimal, if◌then◌else◌, arith, Bool-cases, inl, inr, ap, ◌∙◌,
}
use muster_chat.Valkey.{Valkey, Laws}
use muster_chat.Store.Keys.{presence_key}

module _ (v : Valkey) where
  open v use {Db, cell, hgetall, exists, hset, expire, del}

  unfoldable pub touch_presence : ℕ → Text → Text → ℕ → Db → Db
  touch_presence now a connection_id ttl db = expire (presence_key a) ttl (
      hset (presence_key a)
        ((codes "connection_id", connection_id) ∷ (codes "connected_at", decimal now) ∷ []) db)

  -- `HGET presence_key(a) connection_id`
  unfoldable pub owner : Db → Text → Option Text
  owner db a = lookup (codes "connection_id") (hgetall (cell db (presence_key a)))

  owns : Option Text → Text → Bool
  owns none connection_id = false
  owns (some t) connection_id = t == connection_id

  -- the script `_CLEAR_IF_OWNER`, which the server runs as one step, and its reply
  unfoldable pub clear_presence : Text → Text → Db → ℕ × Db
  unfolding owner owns
  clear_presence a connection_id db =
      if owns (owner db a) connection_id then (1, del (presence_key a) db) else (0, db)

  owns_iff : (o : Option Text) (c : Text) → (owns o c ≡ true) ↔ (o ≡ some c)
  unfolding owns
  owns_iff none c = (λ h. absurd (ground arith), λ h. absurd (ground arith))
  owns_iff (some t) c = (λ h. ap some (==_sound t c h), λ h. ground (arith, ==_iff t c))

module _ (v : Valkey) (laws : Laws v) where
  open v use {Db, cell, exists, hgetall}
  open laws use {hgetall-hset, hgetall-expire, exists-del, absent, frame_del}

  -- The end of a connection writes at one key.
  pub clear_presence_frame :
      (a c k : Text) (db : Db) → presence_key a ≢ k → cell (clear_presence v a c db).1 k ≡ cell db k
  unfolding clear_presence
  clear_presence_frame a c k db h = elim (Bool-cases (owns v (owner v db a) c)) [
    | inl q ↦ rw q (frame_del (presence_key a) k db h)
    | inr q ↦ rw q refl
  ]

  -- The connection that touched the presence last owns it.
  pub owner-touch_presence :
      (now : ℕ) (a c : Text) (ttl : ℕ) (db : Db)
      → 0 < ttl
      → owner v (touch_presence v now a c ttl db) a ≡ some c
  unfolding owner touch_presence lookup ◌==◌
  owner-touch_presence now a c ttl db h =
      ap (lookup (codes "connection_id")) (hgetall-expire (presence_key a) ttl _ h)
      ∙ hgetall-hset (presence_key a) (codes "connection_id") _ db
      ∙ refl

  -- The end of a connection clears the presence where that connection owns it, and changes nothing
  -- where another does.
  pub clear_presence_lem :
      (a c : Text) (db : Db)
      → ((owner v db a ≡ some c)
          × ((clear_presence v a c db).0 ≡ 1)
          × (exists (cell (clear_presence v a c db).1 (presence_key a)) ≡ false))
        ⊎ ((owner v db a ≢ some c) × (clear_presence v a c db ≡ (0, db)))
  unfolding clear_presence
  clear_presence_lem a c db = elim (Bool-cases (owns v (owner v db a) c)) [
    | inl q ↦ inl ((owns_iff v (owner v db a) c).0 q, rw q, rw q (exists-del (presence_key a) db))
    | inr q ↦ inr (λ e. not_owned q e, rw q)
  ]
    where
      not_owned : owns v (owner v db a) c ≡ false → owner v db a ≢ some c
      not_owned q e = ground (arith, (owns_iff v (owner v db a) c).1 e)
