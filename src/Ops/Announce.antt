-- ===== src/Ops/Announce.antt =====
-- `op_announce`: a broadcast to the agents that are online, which nothing stores.
pub mod Recipients
pub mod Reached
use muster_chat.Base.{
  ℕ, ◌≡◌, Bool, true, false, not, ◌&&◌, List, [], ◌∷◌, ◌++◌, Option, none, some, Result, ok, err,
  Text, codes, ◌==◌, contains, starts_with, drop_prefix, select, map, length, if◌then◌else◌,
}
use muster_chat.Base.Exec.{Exec, ◌>>=◌, ◌>>◌, pure, lift, reads, require}
use muster_chat.Valkey.{Valkey, Json}
use muster_chat.Identity.{Address, address_text}
use muster_chat.Auth.{Identity}
use muster_chat.Config.{Config}
use muster_chat.Store.Keys.{announce_kind}
use muster_chat.Store.Envelope.{or_text}
use muster_chat.Store.Agents.{Row, online}
use muster_chat.Store.Deliver.{World, publish_deliver, Event}
use muster_chat.Ops.Types.{
  body_arg, Args, arg, truthy, is_text, Value, OpError, project_required, scope_not_own, Failure,
  raised, Handler, text_arg, subject_arg,
}
use muster_chat.Ops.Checks.{visible_agents, check_size, check_rate}

-- Whom a scope names: the caller's own agents, or those of one of the caller's groups.
pub data Scope : Type 0 where
  own : Scope
  group : Text → Scope

unfoldable pub scope_of : {Meta : Type 0} → Identity → Text → Result (Failure Meta) Scope
scope_of ident scope =
    let g = drop_prefix (codes "group:") scope in
    if scope == codes "user:" ++ ident.user_id
    then ok own
    else if starts_with scope (codes "group:") && contains ident.groups g
    then ok (group g)
    else err (raised scope_not_own)

-- `in_scope`
unfoldable pub in_scope : {Meta : Type 0} → Identity → Scope → Row Meta → Bool
in_scope ident own a = a.user == ident.user_id
in_scope ident (group g) a = contains a.groups g

-- the test of the comprehension `eligible`
unfoldable pub is_eligible : {Meta : Type 0} → Identity → Scope → Value → Text → Row Meta → Bool
is_eligible ident scope project sender a =
    in_scope ident scope a
    && (is_text project a.project && (a.status == online && not (a.addr == sender)))

module _ (v : Valkey) (json : Json) where
  open json use {Meta}

  -- `for a in eligible: await store.publish_deliver(r, a["addr"], event)`
  unfoldable pub publish_all : Event → List (Row Meta) → World v → World v
  publish_all event [] w = w
  publish_all event (a ∷ agents) w = publish_all event agents (publish_deliver a.addr event w)

  unfoldable pub broadcast : Event → List (Row Meta) → Handler v Meta ℕ
  broadcast event eligible w = (ok (length eligible), publish_all event eligible w)

  unfoldable pub op_announce : Config → Identity → Address → Args → Handler v Meta ℕ
  op_announce cfg ident sender args = do
    let project = arg (codes "project") args
    require (truthy project) (raised project_required)
    body ← lift (body_arg (arg (codes "body") args))
    subject ← lift (subject_arg (arg (codes "subject") args))
    check_size v json body subject cfg.body_max
    scope_text ← lift (text_arg (arg (codes "scope") args))
    scope ← lift (scope_of ident scope_text)
    check_rate v json announce_kind (address_text sender) cfg.announce_rate cfg.rate_window
    agents ← reads (visible_agents v json ident)
    broadcast (Event.announce (address_text sender) (or_text subject []) body)
        (select (is_eligible ident scope project (address_text sender)) agents)
