-- ===== src/Stream/Ownership.antt =====
-- Which of the connections of an agent holds its presence.
use muster_chat.Base.{
  ℕ, ◌<◌, ◌≡◌, ◌≢◌, refl, sym, ap, ◌∙◌, false, List, [], ◌∷◌, Option, none, some, Result, ok, err,
  Text, ◌==◌, lookup, ==_iff, ==_sound, if◌then◌else◌, Bool-cases, inl, inr, arith,
}
use muster_chat.Valkey.{Valkey, Json, Laws}
use muster_chat.Identity.{Address, address_text}
use muster_chat.Auth.{Identity, AuthFailure, refused, bad_body}
use muster_chat.Config.{Config}
use muster_chat.Store.Keys.{presence_key}
use muster_chat.Store.Presence.{owner, owner-touch_presence, clear_presence_lem}
use muster_chat.Stream.{open_stream, ping_step, close_stream}

-- The steps of the connections of one agent, in the order in which the server runs them.
pub data Move (Meta : Type 0) : Type 0 where
  opens : (now : ℕ) (connection_id : Text) (ident : Identity) (meta : Meta) → Move Meta
  pings :
      (now : ℕ) (connection_id : Text) (ident : Identity) (meta : Meta)
      (answer : Result AuthFailure Identity)
      → Move Meta
  closes : (connection_id : Text) → Move Meta

module _ (v : Valkey) (json : Json) (cfg : Config) (addr : Address) where
  open v use {Db}
  open json use {Meta}

  -- what a step makes of the database
  unfoldable pub run_move : Move Meta → Db → Db
  run_move (opens now c ident meta) db = (open_stream v json cfg addr now c ident meta db).1
  run_move (pings now c ident meta answer) db =
      (ping_step v json cfg addr now c ident meta answer db).1
  run_move (closes c) db = close_stream v json cfg addr c db

  unfoldable pub run_moves : List (Move Meta) → Db → Db
  unfolding run_move
  run_moves [] db = db
  run_moves (m ∷ ms) db = run_moves ms (run_move m db)

-- The connection that holds the presence gives it up, and no other.
unfoldable pub given_up : Text → Option Text → Option Text
given_up c none = none
given_up c (some d) = if d == c then none else some d

-- The specification: a presence is held by the connection that opened or pinged last, until this
-- connection closes.
unfoldable pub held : {Meta : Type 0} → Move Meta → Option Text → Option Text
held (opens now c ident meta) o = some c
held (pings now c ident meta (ok ident2)) o = some c
held (pings now c ident meta (err e)) o = o
held (closes c) o = given_up c o

unfoldable pub held_after : {Meta : Type 0} → List (Move Meta) → Option Text → Option Text
held_after [] o = o
held_after (m ∷ ms) o = held_after ms (held m o)

given_up-owner : (c : Text) (o : Option Text) → o ≢ some c → given_up c o ≡ o
unfolding given_up
given_up-owner c none h = refl
given_up-owner c (some d) h = elim (Bool-cases (d == c)) [
  | inl q ↦ absurd (h (ap some (==_sound d c q)))
  | inr q ↦ rw q
]

given_up_own : (c : Text) (o : Option Text) → o ≡ some c → given_up c o ≡ none
unfolding given_up
given_up_own c none h = absurd (ground arith)
given_up_own c (some d) h = ground (arith, ==_iff d c)

module _ (v : Valkey) (laws : Laws v) (json : Json) (cfg : Config) (addr : Address) where
  open v use {Db, cell, hgetall, exists}
  open json use {Meta}
  open laws use {absent}

  no_owner : (a : Text) (db : Db) → exists (cell db (presence_key a)) ≡ false → owner v db a ≡ none
  unfolding owner lookup
  no_owner a db h = rw ((absent (cell db (presence_key a)) h).0)

  close_stream-owner :
      (c : Text) (db : Db)
      → owner v (close_stream v json cfg addr c db) (address_text addr)
        ≡ given_up c (owner v db (address_text addr))
  unfolding close_stream
  close_stream-owner c db =
      let a = address_text addr in
      elim (clear_presence_lem v laws a c db) [
        | inl (own, _, cleared) ↦ no_owner a _ cleared ∙ sym (given_up_own c (owner v db a) own)
        | inr (other, same) ↦
            ap (λ r. owner v r.1 a) same ∙ sym (given_up-owner c (owner v db a) other)
      ]

  run_move-owner :
      (m : Move Meta) (db : Db)
      → 0 < cfg.presence_ttl
      → owner v (run_move v json cfg addr m db) (address_text addr)
        ≡ held m (owner v db (address_text addr))
  unfolding run_move held open_stream ping_step
  run_move-owner (opens now c ident meta) db h =
      owner-touch_presence v laws now (address_text addr) c cfg.presence_ttl _ h
  run_move-owner (pings now c ident meta (ok ident2)) db h =
      owner-touch_presence v laws now (address_text addr) c cfg.presence_ttl _ h
  run_move-owner (pings now c ident meta (err (refused e))) db h = refl
  run_move-owner (pings now c ident meta (err bad_body)) db h = refl
  run_move-owner (closes c) db h = close_stream-owner c db

  -- Whatever the connections of an agent do and in whatever order, while no presence runs out of
  -- time and its time is positive: it is held by the connection that opened or pinged last, unless
  -- this connection has closed since.
  pub owner-run_moves :
      (ms : List (Move Meta)) (db : Db)
      → 0 < cfg.presence_ttl
      → owner v (run_moves v json cfg addr ms db) (address_text addr)
        ≡ held_after ms (owner v db (address_text addr))
  unfolding run_moves held_after
  owner-run_moves [] db h = refl
  owner-run_moves (m ∷ ms) db h =
      owner-run_moves ms (run_move v json cfg addr m db) h
      ∙ ap (held_after ms) (run_move-owner m db h)

  -- A connection that pings after its successor has opened, and then closes, leaves its agent with
  -- no presence, though the successor is open; the time of a presence is positive.
  pub run_moves-late_ping :
      (t1 t2 t3 : ℕ) (old new : Text) (ident ident2 : Identity) (meta : Meta) (db : Db)
      → 0 < cfg.presence_ttl
      → owner v
          (run_moves v json cfg addr
            (opens t1 old ident meta
              ∷ opens t2 new ident meta
              ∷ pings t3 old ident meta (ok ident2)
              ∷ closes old
              ∷ [])
            db)
          (address_text addr)
        ≡ none
  run_moves-late_ping t1 t2 t3 old new ident ident2 meta db h =
      owner-run_moves _ db h ∙ unfold held_after held in given_up_own old (some old) refl
