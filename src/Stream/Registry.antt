-- ===== src/Stream/Registry.antt =====
-- What a connected agent is registered with, while its stream goes on.
use muster_chat.Base.{
  ℕ, ◌<◌, ◌≡◌, ◌≢◌, refl, sym, ap, ◌∙◌, true, List, [], ◌∷◌, Option, some, ok, Text, codes, ◌==◌,
  ==_iff, lookup, Bool-cases, inl, inr, arith,
}
use muster_chat.Valkey.{Valkey, Json, Laws}
use muster_chat.Identity.{Address, address_text}
use muster_chat.Auth.{Identity}
use muster_chat.Config.{Config}
use muster_chat.Store.Keys.{agent_key, presence_key}
use muster_chat.Store.Agents.{agent_fields, register_agent}
use muster_chat.Store.Presence.{touch_presence}
use muster_chat.Stream.{same_groups, open_stream, refresh, ping_step}

same_groups_sound : (xs ys : List Text) → same_groups xs ys ≡ true → xs ≡ ys
unfolding same_groups
same_groups_sound [] [] h = refl
same_groups_sound [] (y ∷ ys) h = absurd (ground arith)
same_groups_sound (x ∷ xs) [] h = absurd (ground arith)
same_groups_sound (x ∷ xs) (y ∷ ys) h = ground (arith, ==_iff x y, same_groups_sound xs ys)

presence-ne-agent : (a b : Text) → presence_key a ≢ agent_key b
unfolding presence_key agent_key
presence-ne-agent a b h = ground arith

module _ (v : Valkey) (laws : Laws v) (json : Json) (cfg : Config) (addr : Address) where
  open v use {Db, cell, hgetall}
  open json use {Meta, dump_groups}
  open laws use {frame_hset, frame_expire, hgetall-hset, hgetall-expire}

  -- The hash of the agent, as it is found.
  abbrev registered_groups : Db → Option Text
  registered_groups db = lookup (codes "groups") (hgetall (cell db (agent_key (address_text addr))))

  touch_presence-frame :
      (now : ℕ) (a c b : Text) (ttl : ℕ) (db : Db)
      → cell (touch_presence v now a c ttl db) (agent_key b) ≡ cell db (agent_key b)
  unfolding touch_presence
  touch_presence-frame now a c b ttl db =
      frame_expire ttl (presence_key a) (agent_key b) _ (presence-ne-agent a b)
      ∙ frame_hset _ (presence_key a) (agent_key b) db (presence-ne-agent a b)

  register_agent-groups :
      (now : ℕ) (groups : List Text) (meta : Meta) (db : Db)
      → 0 < cfg.agent_retention
      → registered_groups (register_agent v json now addr groups meta cfg.agent_retention db)
        ≡ some (dump_groups groups)
  unfolding register_agent agent_fields lookup ◌==◌
  register_agent-groups now groups meta db h =
      ap (lookup (codes "groups"))
        (hgetall-expire (agent_key (address_text addr)) cfg.agent_retention _ h)
      ∙ hgetall-hset (agent_key (address_text addr)) (codes "groups") _ _
      ∙ refl

  -- An agent that opens its stream is in the directory with the groups of its identity.
  open_stream-groups :
      (now : ℕ) (c : Text) (ident : Identity) (meta : Meta) (db : Db)
      → 0 < cfg.agent_retention
      → registered_groups (open_stream v json cfg addr now c ident meta db).1
        ≡ some (dump_groups ident.groups)
  unfolding open_stream
  open_stream-groups now c ident meta db h =
      ap (λ x. lookup (codes "groups") (hgetall x))
        (touch_presence-frame now (address_text addr) c (address_text addr) cfg.presence_ttl _)
      ∙ register_agent-groups now ident.groups meta db h

  refresh-groups :
      (now : ℕ) (ident ident2 : Identity) (meta : Meta) (db : Db)
      → 0 < cfg.agent_retention
      → registered_groups db ≡ some (dump_groups ident.groups)
      → ((refresh v json cfg addr now ident ident2 meta db).0.groups ≡ ident2.groups)
        × (registered_groups (refresh v json cfg addr now ident ident2 meta db).1
            ≡ some (dump_groups ident2.groups))
  unfolding refresh
  refresh-groups now ident ident2 meta db h known =
      elim (Bool-cases (same_groups ident2.groups ident.groups)) [
        | inl q ↦
            let e = same_groups_sound ident2.groups ident.groups q in
            rw (refresh, q) (sym e, known ∙ ap (λ gs. some (dump_groups gs)) (sym e))
        | inr q ↦ rw (refresh, q) (refl, register_agent-groups now ident2.groups meta db h)
      ]

  -- After a ping the stream goes on with the groups that the key was just resolved to, and the hash
  -- holds these groups, if it held those of the stream before; the retention is positive.
  ping_step-groups :
      (now : ℕ) (c : Text) (ident ident2 : Identity) (meta : Meta) (db : Db)
      → 0 < cfg.agent_retention
      → registered_groups db ≡ some (dump_groups ident.groups)
      → (ident' : Identity) × ((ping_step v json cfg addr now c ident meta (ok ident2) db).0.1
          ≡ some ident')
        × (ident'.groups ≡ ident2.groups)
        × (registered_groups (ping_step v json cfg addr now c ident meta (ok ident2) db).1
            ≡ some (dump_groups ident2.groups))
  unfolding ping_step
  ping_step-groups now c ident ident2 meta db h known =
      let (same, kept) = refresh-groups now ident ident2 meta db h known in
      (
        (refresh v json cfg addr now ident ident2 meta db).0,
        refl,
        same,
        ap (λ x. lookup (codes "groups") (hgetall x))
              (touch_presence-frame now (address_text addr) c (address_text addr) cfg.presence_ttl
                _)
            ∙ kept,
      )

  -- A ping of an agent whose groups are the same leaves its hash as it is, with the time that is
  -- left to it.
  pub ping_step-hash :
      (now : ℕ) (c : Text) (ident ident2 : Identity) (meta : Meta) (db : Db)
      → same_groups ident2.groups ident.groups ≡ true
      → cell
          (ping_step v json cfg addr now c ident meta (ok ident2) db).1
          (agent_key (address_text addr))
        ≡ cell db (agent_key (address_text addr))
  unfolding ping_step refresh
  ping_step-hash now c ident ident2 meta db h =
      touch_presence-frame now (address_text addr) c (address_text addr) cfg.presence_ttl _
      ∙ ap (λ r. cell r.1 (agent_key (address_text addr))) same
    where
      same : refresh v json cfg addr now ident ident2 meta db ≡ (ident, db)
      same = rw h refl
