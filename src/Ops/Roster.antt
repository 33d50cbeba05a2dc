-- ===== src/Ops/Roster.antt =====
-- `op_roster`: the directory, filtered, with the counts of what the status filter drops.
pub mod Counts
pub mod Rows
use muster_chat.Base.{
  ℕ, ◌+◌, ◌≡◌, Bool, true, false, not, ◌&&◌, List, [], ◌∷◌, Result, ok, err, ◌>>=◌, Text, codes,
  ◌==◌, contains, any, select, map, if◌then◌else◌,
}
use muster_chat.Valkey.{Valkey, Json}
use muster_chat.Identity.{Address, address_text}
use muster_chat.Auth.{Identity}
use muster_chat.Store.Agents.{Row, online, offline}
use muster_chat.Store.Deliver.{World}
use muster_chat.Ops.Types.{
  Args, arg, truthy, is_text, Value, text, OpError, group_not_own, invalid_status, Failure, raised,
  PublicRow, public_row,
}
use muster_chat.Ops.Checks.{visible_agents}

abbrev pub all_statuses : Text
all_statuses = codes "all"

-- `STATUSES`
abbrev statuses : List Text
statuses = online ∷ offline ∷ all_statuses ∷ []

-- `xs` holds the value
unfoldable pub holds : Value → List Text → Bool
holds v = any (λ t. is_text v t)

-- `if args.get(field): agents = [a for a in agents if a[field] == args[field]]`
unfoldable pub keeps_field : Value → Text → Bool
keeps_field v t = if truthy v then is_text v t else true

unfoldable pub keeps_group : Value → List Text → Bool
unfolding holds
keeps_group v ts = if truthy v then holds v ts else true

-- what the filters on user, project, runtime and group keep
unfoldable pub passes : {Meta : Type 0} → Args → Row Meta → Bool
unfolding keeps_field keeps_group
passes args a =
    keeps_field (arg (codes "user") args) a.user
    && (keeps_field (arg (codes "project") args) a.project
        && (keeps_field (arg (codes "runtime") args) a.runtime
            && keeps_group (arg (codes "group") args) a.groups))

-- a group to filter by is one of the caller's own
unfoldable pub group_filter : {Meta : Type 0} → Value → List Text → Result (Failure Meta) (Unit {0})
unfolding holds
group_filter v own =
    if truthy v then (if holds v own then ok tt else err (raised group_not_own)) else ok tt

-- `status = args.get("status") or "online"`, which must be one of `STATUSES`
unfoldable pub status_arg : {Meta : Type 0} → Value → Result (Failure Meta) Text
status_arg (text (c ∷ t)) =
    if contains statuses (c ∷ t) then ok (c ∷ t) else err (raised invalid_status)
status_arg v = if truthy v then err (raised invalid_status) else ok online

-- A dictionary of counts.
abbrev pub Counts : Type 0
Counts = List (Text × ℕ)

-- `hidden[p] = hidden.get(p, 0) + 1`
unfoldable pub bump : Text → Counts → Counts
bump p [] = (p, 1) ∷ []
bump p ((q, n) ∷ hidden) =
    let rest = bump p hidden in if q == p then (q, n + 1) ∷ hidden else (q, n) ∷ rest

-- the rows that are counted: of another status, and not the sender's
unfoldable pub is_hidden : {Meta : Type 0} → Text → Text → Row Meta → Bool
is_hidden status sender a = not (a.status == status) && not (a.addr == sender)

unfoldable pub count_hidden : {Meta : Type 0} → Text → Text → List (Row Meta) → Counts → Counts
count_hidden status sender [] hidden = hidden
count_hidden status sender (a ∷ agents) hidden =
    count_hidden status sender agents
      (if is_hidden status sender a then bump a.project hidden else hidden)

pub record RosterReply (Meta : Type 0) : Type 0 where
  pub agents : List (PublicRow Meta)
  pub hidden : Counts

unfoldable pub roster_reply : {Meta : Type 0} → Text → Text → List (Row Meta) → RosterReply Meta
roster_reply status sender agents =
    if status == all_statuses
    then record { agents = map public_row agents; hidden = [] }
    else record {
      agents = map public_row (select (λ a. a.status == status) agents);
      hidden = count_hidden status sender agents [];
    }

module _ (v : Valkey) (json : Json) where
  open json use {Meta}

  unfoldable pub op_roster :
      Identity → Address → Args → World v → Result (Failure Meta) (RosterReply Meta)
  op_roster ident sender args w = do
    agents ← visible_agents v json ident w
    _ ← group_filter (arg (codes "group") args) ident.groups
    status ← status_arg (arg (codes "status") args)
    ok (roster_reply status (address_text sender) (select (passes args) agents))
