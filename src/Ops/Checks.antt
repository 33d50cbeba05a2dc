-- ===== src/Ops/Checks.antt =====
-- What the handlers share: the visible agents, the resolution of a reference, the size of a message
-- and the rate of its sender.
pub mod Resolve
use muster_chat.Base.{
  ℕ, ◌+◌, ◌≡◌, Bool, true, false, List, [], ◌∷◌, Option, none, some, Result, ok, err, Text, map,
  select, length, leb, utf8_len, if◌then◌else◌,
}
use muster_chat.Base.Exec.{Exec, ◌>>=◌, ◌>>◌, pure, lift, reads, require}
use muster_chat.Valkey.{Valkey, Json}
use muster_chat.Identity.{matches, visible}
use muster_chat.Auth.{Identity}
use muster_chat.Store.Envelope.{or_text}
use muster_chat.Store.Agents.{Row, Crash, list_agents}
use muster_chat.Store.Rate.{rate_check}
use muster_chat.Store.Deliver.{World}
use muster_chat.Ops.Types.{
  OpError, agent_not_found, ambiguous_reference, message_rate_exceeded, message_too_large, Failure,
  raised, crashed, Handler, public_row,
}

-- the body of the comprehension of `_visible_agents`
unfoldable pub sees : {Meta : Type 0} → Identity → Row Meta → Bool
sees ident a = visible ident.user_id ident.groups a.user a.groups

unfoldable pub found :
    {Meta : Type 0} → List (Row Meta) → List (Row Meta) → Result (Failure Meta) (Row Meta)
found agents [] = err (raised (agent_not_found (map (λ a. a.addr) agents)))
found agents (a ∷ []) = ok a
found agents (a ∷ b ∷ hits) = err (raised (ambiguous_reference (map public_row (a ∷ b ∷ hits))))

-- `_resolve_reference`
unfoldable pub resolve_reference :
    {Meta : Type 0} → Text → List (Row Meta) → Result (Failure Meta) (Row Meta)
unfolding found
resolve_reference ref agents = found agents (select (λ a. matches ref a.addr) agents)

-- `len(body.encode()) + len((subject or "").encode())`
unfoldable pub size : Text → Option Text → ℕ
size body subject = utf8_len body + utf8_len (or_text subject [])

-- the comprehension of `_visible_agents`, over what `list_agents` answers
unfoldable pub seen :
    {Meta : Type 0}
    → Identity
    → Result Crash (List (Row Meta))
    → Result (Failure Meta) (List (Row Meta))
unfolding sees
seen ident (ok rows) = ok (select (sees ident) rows)
seen ident (err e) = err (crashed e)

module _ (v : Valkey) (json : Json) where
  open json use {Meta}

  -- `_visible_agents`
  unfoldable pub visible_agents : Identity → World v → Result (Failure Meta) (List (Row Meta))
  unfolding seen
  visible_agents ident w = seen ident (list_agents v json w.db)

  unfoldable pub check_size : Text → Option Text → ℕ → Handler v Meta (Unit {0})
  check_size body subject cap =
      require (leb (size body subject) cap) (raised (message_too_large (size body subject) cap))

  rate_answer : ℕ → ℕ → Bool × ℕ → Result (Failure Meta) (Unit {0})
  rate_answer limit window (passed, retry) =
      if passed then ok tt else err (raised (message_rate_exceeded retry limit window))

  -- `_check_rate`
  unfoldable pub check_rate : Text → Text → ℕ → ℕ → Handler v Meta (Unit {0})
  unfolding rate_answer
  check_rate kind sender limit window w =
      let (answer, db') = rate_check v kind sender limit window w.db in
      (rate_answer limit window answer, record w { db = db' })
