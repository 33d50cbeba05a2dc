-- ===== src/Ops/Checks/Resolve.antt =====
-- A reference resolves to the one visible agent that it matches.
use muster_chat.Base.{
  ◌≡◌, ◌≢◌, ◌↔◌, ◌⊎◌, refl, true, false, List, [], ◌∷◌, ◌++◌, Result, ok, err, Text, map, split,
  select, All, In, here, select-In, In-select, select-nil, select-cons, arith, inl, inr,
}
use muster_chat.Valkey.{Valkey, Json}
use muster_chat.Identity.{slash, matches, visible}
use muster_chat.Identity.Reference.{IsSlice, matches_iff}
use muster_chat.Auth.{Identity}
use muster_chat.Store.Agents.{Row, Crash, list_agents}
use muster_chat.Store.Deliver.{World}
use muster_chat.Ops.Types.{raised, agent_not_found, ambiguous_reference, public_row}
use muster_chat.Ops.Checks.{sees, seen, found, resolve_reference, visible_agents}

module _ {Meta : Type 0} where
  -- the agents that a reference matches
  abbrev pub hits : Text → List (Row Meta) → List (Row Meta)
  hits ref = select (λ a. matches ref a.addr)

  found-ok : (agents hs : List (Row Meta)) (a : Row Meta) → found agents hs ≡ ok a → hs ≡ a ∷ []
  unfolding found
  found-ok agents [] a h = absurd (ground arith)
  found-ok agents (x ∷ []) a h = cc
  found-ok agents (x ∷ y ∷ hs) a h = absurd (ground arith)

  -- A reference resolves to an agent exactly when the agent is the only match.
  resolve_reference_iff :
      (ref : Text) (agents : List (Row Meta)) (a : Row Meta)
      → (resolve_reference ref agents ≡ ok a) ↔ (hits ref agents ≡ a ∷ [])
  unfolding resolve_reference
  resolve_reference_iff ref agents a = (λ h. found-ok agents (hits ref agents) a h, λ h. rw h)

  -- The resolved agent is one of the agents, and matches.
  pub resolve_reference-In :
      (ref : Text) (agents : List (Row Meta)) (a : Row Meta)
      → resolve_reference ref agents ≡ ok a
      → In a agents × (matches ref a.addr ≡ true)
  resolve_reference-In ref agents a h =
      select-In (λ b. matches ref b.addr) agents
        (rw ((resolve_reference_iff ref agents a).0 h) (here refl))

  -- A reference refers to an agent by some consecutive segments of its address.
  abbrev pub Refers : Text → Row Meta → Type 0
  Refers ref a = (ref ≢ []) × IsSlice ref (split slash a.addr)

  not_referred : (ref : Text) (a : Row Meta) → matches ref a.addr ≡ false → ¬ Refers ref a
  not_referred ref a h r = absurd (ground (arith, (matches_iff ref a.addr).1 r))

  none_referred :
      (ref : Text) (xs : List (Row Meta))
      → All (λ a. matches ref a.addr ≡ false) xs
      → All (λ a. ¬ Refers ref a) xs
  none_referred ref [] h = tt
  none_referred ref (x ∷ xs) (h, hs) = (not_referred ref x h, none_referred ref xs hs)

  hits-In :
      (ref : Text) (agents : List (Row Meta)) (a : Row Meta)
      → In a (hits ref agents) ↔ (In a agents × Refers ref a)
  hits-In ref agents a = (
    λ m.
        let (k, h) = select-In (λ b. matches ref b.addr) agents m in
        (k, (matches_iff ref a.addr).0 h),
    λ (k, r). In-select (λ b. matches ref b.addr) k ((matches_iff ref a.addr).1 r),
  )

  -- The answer where no agent is referred to, one, and several, whose rows are the candidates.
  abbrev pub Unknown : Text → List (Row Meta) → Type 0
  Unknown ref agents =
      All (λ a. ¬ Refers ref a) agents
      × (resolve_reference ref agents ≡ err (raised (agent_not_found (map (λ a. a.addr) agents))))

  abbrev pub Unique : Text → List (Row Meta) → Type 0
  Unique ref agents =
      (before : List (Row Meta)) × (a : Row Meta) × (after : List (Row Meta)) × (agents
        ≡ before ++ a ∷ after)
      × All (λ b. ¬ Refers ref b) before
      × Refers ref a
      × All (λ b. ¬ Refers ref b) after
      × (resolve_reference ref agents ≡ ok a)

  abbrev pub Several : Text → List (Row Meta) → Type 0
  Several ref agents =
      (before : List (Row Meta)) × (a : Row Meta) × (after : List (Row Meta)) × (b : Row Meta)
      × (candidates : List (Row Meta)) × (agents ≡ before ++ a ∷ after)
      × Refers ref a
      × In b after
      × Refers ref b
      × ((c : Row Meta) → In c candidates ↔ (In c agents × Refers ref c))
      × (resolve_reference ref agents
          ≡ err (raised (ambiguous_reference (map public_row candidates))))

  answered :
      (ref : Text) (agents hs : List (Row Meta))
      → hits ref agents ≡ hs
      → Unknown ref agents ⊎ (Unique ref agents ⊎ Several ref agents)
  unfolding resolve_reference
  answered ref agents [] e = inl (none_referred ref agents (select-nil _ agents e), rw e)
  answered ref agents (a ∷ []) e =
      let (before, after, parts, none_before, k, rest) = select-cons _ agents e in
      inr (
        inl (
          before,
          a,
          after,
          parts,
          none_referred ref before none_before,
          (matches_iff ref a.addr).0 k,
          none_referred ref after (select-nil _ after rest),
          rw e,
        ))
  answered ref agents (a ∷ b ∷ hs) e =
      let (before, after, parts, none_before, k, rest) = select-cons _ agents e in
      let (m, l) = select-In (λ c. matches ref c.addr) after (rw rest (here refl)) in
      inr (
        inr (
          before,
          a,
          after,
          b,
          a ∷ b ∷ hs,
          parts,
          (matches_iff ref a.addr).0 k,
          m,
          (matches_iff ref b.addr).0 l,
          λ c. rw (← e) (hits-In ref agents c),
          rw e,
        ))

  -- A reference that is no run of consecutive segments of the address of any of the agents is an
  -- error with all the addresses; one that is such a run of exactly one row resolves to its agent;
  -- and one that is a run of two rows or more is an error with exactly the rows of which it is one.
  pub resolve_reference-Refers :
      (ref : Text) (agents : List (Row Meta))
      → Unknown ref agents ⊎ (Unique ref agents ⊎ Several ref agents)
  resolve_reference-Refers ref agents = answered ref agents (hits ref agents) refl

  seen-ok :
      (ident : Identity) (r : Result Crash (List (Row Meta))) (agents : List (Row Meta))
      → seen ident r ≡ ok agents
      → (rows : List (Row Meta)) × (r ≡ ok rows) × (select (sees ident) rows ≡ agents)
  unfolding seen
  seen-ok ident (ok rows) agents h = (rows, refl, ground arith)
  seen-ok ident (err e) agents h = absurd (ground arith)

module _ (v : Valkey) (json : Json) where
  open json use {Meta}

  -- The agents that a handler works with are those of the directory that the caller may see.
  pub visible_agents-ok :
      (ident : Identity) (w : World v) (agents : List (Row Meta))
      → visible_agents v json ident w ≡ ok agents
      → (rows : List (Row Meta)) × (list_agents v json w.db ≡ ok rows)
        × (select (sees ident) rows ≡ agents)
  visible_agents-ok ident w agents h =
      seen-ok ident (list_agents v json w.db) agents (unfold visible_agents in h)

  -- Every agent that a handler works with is visible to the caller.
  pub visible_agents-In :
      (ident : Identity) (w : World v) (agents : List (Row Meta)) (a : Row Meta)
      → visible_agents v json ident w ≡ ok agents
      → In a agents
      → visible ident.user_id ident.groups a.user a.groups ≡ true
  visible_agents-In ident w agents a h m =
      let (rows, _, e) = visible_agents-ok ident w agents h in
      unfold sees in (select-In (sees ident) rows (rw (← e) at m)).1
