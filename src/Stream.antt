-- ===== src/Stream.antt =====
-- server/muster_api/stream.py: the stream of events of one connected agent. The proofs are in the
-- children. What the server reads from its subscription and when the client disconnects is decided
-- outside, so that a connection is a sequence of the steps below.
pub mod Ownership
pub mod Registry
pub mod Session
pub mod Foreign
use muster_chat.Base.{
  ℕ, Bool, true, false, List, [], ◌∷◌, ◌++◌, Option, none, some, Result, ok, err, ◌>>=◌, Text, ◌==◌,
  eqb, ◌&&◌, if◌then◌else◌,
}
use muster_chat.Valkey.{Valkey, Json}
use muster_chat.Identity.{Address, address_text}
use muster_chat.Auth.{Identity, AuthError, AuthFailure, refused, bad_body}
use muster_chat.Config.{Config}
use muster_chat.Store.Agents.{Crash, register_agent}
use muster_chat.Store.Presence.{touch_presence, clear_presence}
use muster_chat.Store.Inbox.{unread_count}
use muster_chat.Store.Deliver.{Event}

-- What is written to the client: a `deliver` event, an `error` event, or a comment.
pub data Frame : Type 0 where
  deliver : Event → Frame
  error : AuthError → Frame
  ping : Frame

-- `tuple(xs) == tuple(ys)`
unfoldable pub same_groups : List Text → List Text → Bool
same_groups [] [] = true
same_groups [] (y ∷ ys) = false
same_groups (x ∷ xs) [] = false
same_groups (x ∷ xs) (y ∷ ys) = x == y && same_groups xs ys

-- the coalesced event of what is to be fetched
unfoldable pub nudge : ℕ × Text → List Frame
nudge (count, oldest_ts) = if eqb count 0 then [] else deliver (Event.unread count oldest_ts) ∷ []

module _ (v : Valkey) (json : Json) (cfg : Config) (addr : Address) where
  open v use {Db}
  open json use {Meta}

  -- the start of `gen`: register, come online, and write that there is something to
  -- fetch
  unfoldable pub open_stream : ℕ → Text → Identity → Meta → Db → Result Crash (List Frame) × Db
  open_stream now connection_id ident meta db =
      let a = address_text addr in
      let db' =
        touch_presence v now a connection_id cfg.presence_ttl
          (register_agent v json now addr ident.groups meta cfg.agent_retention db) in
      (unread_count v now a db' >>= λ c. ok (nudge c), db')

  -- the groups of a new identity are written to the directory, if they differ
  unfoldable pub refresh : ℕ → Identity → Identity → Meta → Db → Identity × Db
  refresh now ident ident2 meta db =
      if same_groups ident2.groups ident.groups
      then (ident, db)
      else (ident2, register_agent v json now addr ident2.groups meta cfg.agent_retention db)

  -- one ping, after the key was resolved again: what is written, and how the stream goes on, `none`
  -- where it ends
  unfoldable pub ping_step :
      ℕ
      → Text
      → Identity
      → Meta
      → Result AuthFailure Identity
      → Db
      → (List Frame × Option Identity) × Db
  ping_step now connection_id ident meta (err (refused e)) db = ((error e ∷ [], none), db)
  ping_step now connection_id ident meta (err bad_body) db = (([], none), db)
  ping_step now connection_id ident meta (ok ident2) db =
      let (ident', db') = refresh now ident ident2 meta db in
      (
        (ping ∷ [], some ident'),
        touch_presence v now (address_text addr) connection_id cfg.presence_ttl db',
      )

  -- the `finally` of `gen`
  unfoldable pub close_stream : Text → Db → Db
  close_stream connection_id db = (clear_presence v (address_text addr) connection_id db).1
