-- ===== src/Ops/Announce/Reached.antt =====
-- Whom an announcement reaches, of the agents in the directory.
use mathlib.Core.Path.{subst}
use muster_chat.Base.{
  ℕ, ◌≡◌, ◌≢◌, ◌↔◌, ◌⊎◌, inl, inr, sym, ap, ◌∙◌, true, List, ◌∷◌, ◌++◌, ok, Text, codes, ==_iff,
  ==_sound, ◌==◌, select, map, length, In, select-In, In-select, arith, contains, starts_with,
  starts_with_sound, drop_prefix, Bool-cases,
}
use muster_chat.Valkey.{Valkey, Json}
use muster_chat.Identity.{Address, address_text}
use muster_chat.Identity.Acl.{Shared, visible_iff, contains-In, In-contains}
use muster_chat.Auth.{Identity}
use muster_chat.Config.{Config}
use muster_chat.Store.Agents.{Row, online, list_agents}
use muster_chat.Store.Deliver.{World, Event}
use muster_chat.Ops.Types.{Args, arg, is_text, is_text_iff, Value, null, bool, int, text, text_arg}
use muster_chat.Ops.Checks.{sees}
use muster_chat.Ops.Checks.Resolve.{visible_agents-ok}
use muster_chat.Ops.Announce.{Scope, own, group, scope_of, in_scope, is_eligible, op_announce}
use muster_chat.Ops.Announce.Recipients.{told, op_announce_sound}

-- The scope is the caller, and the agent is the caller's; or it is a group of the caller, and of the
-- agent.
abbrev pub IsInScope : {Meta : Type 0} → Identity → Value → Row Meta → Type 0
IsInScope ident scope a =
    ((scope ≡ text (codes "user:" ++ ident.user_id)) × (a.user ≡ ident.user_id))
    ⊎ ((g : Text) × (scope ≡ text (codes "group:" ++ g)) × In g ident.groups × In g a.groups)

-- The agent may be seen by the caller, is in the scope and of the project, is online, and is not the
-- sender.
abbrev pub IsReached : {Meta : Type 0} → Identity → Address → Args → Row Meta → Type 0
IsReached ident sender args a =
    ((ident.user_id ≡ a.user) ⊎ Shared ident.groups a.groups)
    × IsInScope ident (arg (codes "scope") args) a
    × (arg (codes "project") args ≡ text a.project)
    × (a.status ≡ online)
    × (a.addr ≢ address_text sender)

-- What a scope says, once it is accepted.
abbrev Named : Identity → Text → Scope → Type 0
Named ident t own = t ≡ codes "user:" ++ ident.user_id
Named ident t (group g) = (t ≡ codes "group:" ++ g) × In g ident.groups

module _ {Meta : Type 0} where
  scope_of-Named :
      (ident : Identity) (t : Text) (scope : Scope)
      → scope_of {Meta = Meta} ident t ≡ ok scope
      → Named ident t scope
  unfolding scope_of
  scope_of-Named ident t scope h =
      let g = drop_prefix (codes "group:") t in
      elim (Bool-cases (t == codes "user:" ++ ident.user_id)) [
        | inl q ↦
            let e : own ≡ scope = cc (rw q at h) in
            subst (Named ident t) e (==_sound t (codes "user:" ++ ident.user_id) q)
        | inr q ↦ elim (Bool-cases (starts_with t (codes "group:"))) [
          | inr r ↦ absurd (ground (arith, rw (q, r) at h))
          | inl r ↦ elim (Bool-cases (contains ident.groups g)) [
            | inr k ↦ absurd (ground (arith, rw (q, r, k) at h))
            | inl k ↦
                let e : group g ≡ scope = cc (rw (q, r, k) at h) in
                subst (Named ident t) e
                  (starts_with_sound t (codes "group:") r, contains-In ident.groups k)
          ]
        ]
      ]

  text_arg-cons :
      (v : Value) (c : ℕ) (t : Text) → text_arg {Meta = Meta} v ≡ ok (c ∷ t) → v ≡ text (c ∷ t)
  unfolding text_arg
  text_arg-cons null c t h = absurd (ground arith)
  text_arg-cons (bool b) c t h = absurd (ground arith)
  text_arg-cons (int z) c t h = absurd (ground arith)
  text_arg-cons (text s) c t h = cc

  in_scope_iff :
      (ident : Identity) (v : Value) (t : Text) (scope : Scope) (a : Row Meta)
      → text_arg {Meta = Meta} v ≡ ok t
      → Named ident t scope
      → (in_scope ident scope a ≡ true) ↔ IsInScope ident v a
  unfolding in_scope
  in_scope_iff ident v t own a h n =
      let said : v ≡ text (codes "user:" ++ ident.user_id) = text_arg-cons v _ _ (rw n at h) in
      (
        λ k. inl (said, ==_sound a.user ident.user_id k),
        λ d. elim d [
          | inl (_, e) ↦ (==_iff a.user ident.user_id).1 e
          | inr (g, e, _, _) ↦ absurd (ground (arith, sym said ∙ e))
        ],
      )
  in_scope_iff ident v t (group g) a h (n, m) =
      let said : v ≡ text (codes "group:" ++ g) = text_arg-cons v _ _ (rw n at h) in
      (
        λ k. inr (g, said, m, contains-In a.groups k),
        λ d. elim d [
          | inl (e, _) ↦ absurd (ground (arith, sym said ∙ e))
          | inr (g', e, _, k) ↦
              let same : g ≡ g' = ground (arith, sym said ∙ e) in In-contains (rw same k)
        ],
      )

  is_eligible_iff :
      (ident : Identity) (scope : Scope) (project : Value) (sender : Text) (a : Row Meta)
      → (is_eligible ident scope project sender a ≡ true) ↔ (
          (in_scope ident scope a ≡ true)
          × (is_text project a.project ≡ true)
          × (a.status ≡ online)
          × (a.addr ≢ sender))
  unfolding is_eligible
  is_eligible_iff ident scope project sender a =
      ground (arith, ==_iff a.status online, ==_iff a.addr sender)

module _ (v : Valkey) (json : Json) (cfg : Config) (ident : Identity) (sender : Address)
    (args : Args) where
  open json use {Meta}

  -- What an accepted announcement with `n` recipients has done, of the directory as it then is.
  abbrev pub Reached : World v → ℕ → World v → Type 0
  Reached w n w' =
      (rows : List (Row Meta)) × (recipients : List (Row Meta)) × (event : Event) × (list_agents v
          json w'.db
        ≡ ok rows)
      × ((a : Row Meta) → In a recipients ↔ (In a rows × IsReached ident sender args a))
      × (n ≡ length recipients)
      × (w'.sent ≡ w.sent ++ map (told event) recipients)

  -- the two comprehensions, one behind the other
  chosen_iff :
      (scope : Scope) (t : Text) (rows : List (Row Meta)) (a : Row Meta)
      → text_arg {Meta = Meta} (arg (codes "scope") args) ≡ ok t
      → Named ident t scope
      → In a (
          select
            (is_eligible ident scope (arg (codes "project") args) (address_text sender))
            (select (sees ident) rows))
        ↔ (In a rows × IsReached ident sender args a)
  unfolding sees
  chosen_iff scope t rows a has_scope named =
      let p = is_eligible ident scope (arg (codes "project") args) (address_text sender) in
      let parts =
        is_eligible_iff ident scope (arg (codes "project") args) (address_text sender) a in
      let of_scope = in_scope_iff ident (arg (codes "scope") args) t scope a has_scope named in
      let of_project = is_text_iff (arg (codes "project") args) a.project in
      let seen = visible_iff ident.user_id ident.groups a.user a.groups in
      (
        λ m.
            let (k, h) = select-In p (select (sees ident) rows) m in
            let (l, s) = select-In (sees ident) rows k in
            let (in_s, of_p, on, other) = parts.0 h in
            (l, (seen.0 s, of_scope.0 in_s, of_project.0 of_p, on, other)),
        λ (l, (s, in_s, of_p, on, other)).
            In-select p (In-select (sees ident) l (seen.1 s))
              (parts.1 (of_scope.1 in_s, of_project.1 of_p, on, other)),
      )

  -- An accepted announcement is published once for each of its recipients, whose number is the
  -- answer; and an agent is a recipient exactly where it is in the directory as it then is, belongs
  -- to the caller or shares a group with the caller, is of the project that is asked for, is
  -- online, is not the sender, and the scope names the caller, whose agent it is, or a group of the
  -- caller, of which it is.
  pub op_announce-Reached :
      (w : World v) (n : ℕ) (w' : World v)
      → op_announce v json cfg ident sender args w ≡ (ok n, w')
      → Reached w n w'
  op_announce-Reached w n w' h =
      let (
        body, subject, scope, agents, scope_text, _, _, has_scope, accepted, seen, count, same_db,
        sent,
      ) =
        op_announce_sound v json cfg ident sender args w n w' h in
      let (rows, listed, e) = visible_agents-ok v json ident _ agents seen in
      (
        rows,
        _,
        _,
        ap (list_agents v json) same_db ∙ listed,
        λ a. rw (← e) (
            chosen_iff scope scope_text rows a has_scope
              (scope_of-Named ident scope_text scope accepted)),
        count,
        sent,
      )
