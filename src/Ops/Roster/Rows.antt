-- ===== src/Ops/Roster/Rows.antt =====
-- What a roster lists: rows of agents that the caller may see and that pass the filters.
use mathlib.Core.Path.{subst}
use muster_chat.Base.{
  Bool, false, ◌&&◌, any_sound, arith, ◌∙◌, ◌≡◌, ◌⊎◌, refl, sym, true, List, [], ◌∷◌, ok, >>=-eq-ok,
  ok-injective, Text, codes, ◌==◌, ==_sound, select, map, In, here, there, select-In, Bool-cases,
  inl, inr,
}
use muster_chat.Valkey.{Valkey, Json}
use muster_chat.Identity.{Address, address_text, visible}
use muster_chat.Auth.{Identity}
use muster_chat.Store.Agents.{Row}
use muster_chat.Store.Deliver.{World}
use muster_chat.Ops.Types.{
  Value, text, truthy, is_text, is_text_iff, Args, arg, PublicRow, public_row,
}
use muster_chat.Ops.Checks.{visible_agents}
use muster_chat.Ops.Checks.Resolve.{visible_agents-In}
use muster_chat.Ops.Roster.{
  holds, keeps_field, keeps_group, passes, group_filter, status_arg, roster_reply, RosterReply,
  op_roster, all_statuses,
}

map-In :
    {A B : Type 0} (f : A → B) (xs : List A) {y : B}
    → In y (map f xs)
    → (x : A) × In x xs × (f x ≡ y)
map-In f [] m = elim m [ ]
map-In f (x ∷ xs) (here e) = (x, here refl, e)
map-In f (x ∷ xs) (there m) = let (z, k, e) = map-In f xs m in (z, there k, e)

module _ {Meta : Type 0} where
  reply-In :
      (status sender : Text) (agents : List (Row Meta)) {row : PublicRow Meta}
      → In row (roster_reply status sender agents).agents
      → (a : Row Meta) × In a agents
        × (public_row a ≡ row)
        × ((status ≡ all_statuses) ⊎ (a.status ≡ status))
  unfolding roster_reply
  reply-In status sender agents {row} m = elim (Bool-cases (status == all_statuses)) [
    | inl q ↦
        let (a, k, e) = map-In public_row agents (rw q at m) in (a, k, e, inl (==_sound _ _ q))
    | inr q ↦
        let (a, k, e) = map-In public_row (select (λ b. b.status == status) agents) (rw q at m) in
        let (k', s) = select-In (λ b. b.status == status) agents k in
        (a, k', e, inr (==_sound _ _ s))
  ]

-- A filter on a field is not set, or names the field.
abbrev pub IsAsked : Value → Text → Type 0
IsAsked v t = (truthy v ≡ false) ⊎ (v ≡ text t)

-- A filter on the groups is not set, or names a group of the caller and of the agent.
abbrev pub IsShared : Value → List Text → List Text → Type 0
IsShared v own ts = (truthy v ≡ false) ⊎ ((g : Text) × (v ≡ text g) × In g own × In g ts)

keeps_field-IsAsked : (v : Value) (t : Text) → keeps_field v t ≡ true → IsAsked v t
unfolding keeps_field
keeps_field-IsAsked v t h = elim (Bool-cases (truthy v)) [
  | inl q ↦ inr ((is_text_iff v t).0 (rw q at h))
  | inr q ↦ inl q
]

holds-In : (v : Value) (ts : List Text) → holds v ts ≡ true → (g : Text) × (v ≡ text g) × In g ts
unfolding holds
holds-In v ts h = let (g, m, k) = any_sound (λ t. is_text v t) ts h in (g, (is_text_iff v g).0 k, m)

module _ {Meta : Type 0} where
  keeps_group-IsShared :
      (v : Value) (own ts : List Text) (u : Unit {0})
      → group_filter {Meta = Meta} v own ≡ ok u
      → keeps_group v ts ≡ true
      → IsShared v own ts
  unfolding group_filter keeps_group
  keeps_group-IsShared v own ts u h k = elim (Bool-cases (truthy v)) [
    | inr q ↦ inl q
    | inl q ↦
        let (g, e, m) = holds-In v ts (rw q at k) in
        elim (Bool-cases (holds v own)) [
          | inr r ↦ absurd (ground (arith, rw (q, r) at h))
          | inl r ↦
              let (g', e', m') = holds-In v own r in
              let same : g' ≡ g = ground (arith, sym e' ∙ e) in inr (g, e, rw same at m', m)
        ]
  ]

  -- What an agent that passes the filters is.
  abbrev pub IsFiltered : Identity → Args → Row Meta → Type 0
  IsFiltered ident args a =
      IsAsked (arg (codes "user") args) a.user
      × IsAsked (arg (codes "project") args) a.project
      × IsAsked (arg (codes "runtime") args) a.runtime
      × IsShared (arg (codes "group") args) ident.groups a.groups

  passes-IsFiltered :
      (ident : Identity) (args : Args) (a : Row Meta) (u : Unit {0})
      → group_filter {Meta = Meta} (arg (codes "group") args) ident.groups ≡ ok u
      → passes args a ≡ true
      → IsFiltered ident args a
  unfolding passes
  passes-IsFiltered ident args a u g h =
      let (of_user, of_project, of_runtime, of_group) = four_hold _ _ _ _ h in
      (
        keeps_field-IsAsked (arg (codes "user") args) a.user of_user,
        keeps_field-IsAsked (arg (codes "project") args) a.project of_project,
        keeps_field-IsAsked (arg (codes "runtime") args) a.runtime of_runtime,
        keeps_group-IsShared (arg (codes "group") args) ident.groups a.groups u g of_group,
      )
    where
      four_hold :
          (a b c d : Bool)
          → (a && (b && (c && d))) ≡ true
          → (a ≡ true) × (b ≡ true) × (c ≡ true) × (d ≡ true)
      four_hold a b c d h = ground arith

module _ (v : Valkey) (json : Json) (ident : Identity) (sender : Address) (args : Args) where
  open json use {Meta}

  -- Every row that a roster lists is of an agent that the caller may see and that passes the
  -- filters, of the status that is asked for: each filter on user, project and runtime that is set
  -- names that of the agent, and one on the group names a group of the caller and of the agent.
  pub op_roster-rows :
      (w : World v) (reply : RosterReply Meta) (row : PublicRow Meta)
      → op_roster v json ident sender args w ≡ ok reply
      → In row reply.agents
      → (a : Row Meta) × (status : Text) × (public_row a ≡ row)
        × (visible ident.user_id ident.groups a.user a.groups ≡ true)
        × (passes args a ≡ true)
        × IsFiltered ident args a
        × (status_arg {Meta = Meta} (arg (codes "status") args) ≡ ok status)
        × ((status ≡ all_statuses) ⊎ (a.status ≡ status))
  unfolding op_roster
  op_roster-rows w reply row h m =
      let (agents, sees, h1) = >>=-eq-ok (visible_agents v json ident w) _ h in
      let (u, in_own, h2) =
        >>=-eq-ok (group_filter {Meta = Meta} (arg (codes "group") args) ident.groups) _ h1 in
      let (status, asked, h3) =
        >>=-eq-ok (status_arg {Meta = Meta} (arg (codes "status") args)) _ h2 in
      let e : roster_reply status (address_text sender) (select (passes args) agents) ≡ reply =
        ok-injective h3 in
      let (a, k, q, s) =
        reply-In status (address_text sender) (select (passes args) agents)
          (subst (λ r. In row r.agents) (sym e) m) in
      let (k', p) = select-In (passes args) agents k in
      (
        a,
        status,
        q,
        visible_agents-In v json ident w agents a sees k',
        p,
        passes-IsFiltered ident args a u in_own p,
        asked,
        s,
      )
