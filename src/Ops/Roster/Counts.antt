-- ===== src/Ops/Roster/Counts.antt =====
-- Nothing is dropped silently: the counts of a roster account for the rows that it leaves out.
use muster_chat.Base.{
  ℕ, suc, ◌+◌, ◌≡◌, refl, ap, false, not, ◌&&◌, List, [], ◌∷◌, Text, ◌==◌, ==_iff, select, map,
  length, arith, if◌then◌else◌, Bool-cases, inl, inr,
}
use muster_chat.Store.Agents.{Row}
use muster_chat.Ops.Types.{public_row}
use muster_chat.Ops.Roster.{Counts, bump, is_hidden, count_hidden, roster_reply, all_statuses}

-- `hidden.get(p, 0)`
unfoldable count_of : Text → Counts → ℕ
count_of p [] = 0
count_of p ((q, n) ∷ hidden) = let rest = count_of p hidden in if q == p then n else rest

unfoldable pub total : Counts → ℕ
total [] = 0
total ((q, n) ∷ hidden) = n + total hidden

count_of-bump :
    (p r : Text) (hidden : Counts)
    → count_of r (bump p hidden) ≡ (if p == r then count_of r hidden + 1 else count_of r hidden)
unfolding count_of bump
count_of-bump p r [] = ground arith
count_of-bump p r ((q, n) ∷ hidden) =
    ground (arith, count_of-bump p r hidden, ==_iff q p, ==_iff q r, ==_iff p r)

total-bump : (p : Text) (hidden : Counts) → total (bump p hidden) ≡ total hidden + 1
unfolding total bump
total-bump p [] = omega arith
total-bump p ((q, n) ∷ hidden) = ground (arith, total-bump p hidden)

length-map {ℓ κ} :
    {A : Type ℓ} {B : Type κ} (f : A → B) (xs : List A) → length (map f xs) ≡ length xs
length-map f [] = refl
length-map f (x ∷ xs) = ap suc (length-map f xs)

module _ {Meta : Type 0} (status sender : Text) where
  -- the hidden rows of a project
  abbrev hidden_in : Text → List (Row Meta) → List (Row Meta)
  hidden_in p = select (λ a. is_hidden status sender a && a.project == p)

  count_of-count_hidden :
      (p : Text) (agents : List (Row Meta)) (hidden : Counts)
      → count_of p (count_hidden status sender agents hidden)
        ≡ count_of p hidden + length (hidden_in p agents)
  unfolding count_hidden
  count_of-count_hidden p [] hidden = omega arith
  count_of-count_hidden p (a ∷ agents) hidden = elim (Bool-cases (is_hidden status sender a)) [
    | inl q ↦ rw q (
        ground (
          arith,
          count_of-count_hidden p agents (bump a.project hidden),
          count_of-bump a.project p hidden,
        ))
    | inr q ↦ rw q (count_of-count_hidden p agents hidden)
  ]

  total-count_hidden :
      (agents : List (Row Meta)) (hidden : Counts)
      → total (count_hidden status sender agents hidden)
        ≡ total hidden + length (select (is_hidden status sender) agents)
  unfolding count_hidden
  total-count_hidden [] hidden = omega arith
  total-count_hidden (a ∷ agents) hidden = elim (Bool-cases (is_hidden status sender a)) [
    | inl q ↦ rw q (
        omega
          (arith, total-count_hidden agents (bump a.project hidden), total-bump a.project hidden))
    | inr q ↦ rw q (total-count_hidden agents hidden)
  ]

  -- Where a status is asked for, the count of each project is the number of its rows of another
  -- status that are not the sender's.
  hidden_counts :
      (p : Text) (agents : List (Row Meta))
      → (status == all_statuses) ≡ false
      → count_of p (roster_reply status sender agents).hidden ≡ length (hidden_in p agents)
  unfolding roster_reply
  hidden_counts p agents h =
      rw h (let e = count_of-count_hidden p agents [] in unfold count_of in omega arith)

  -- the sender's own rows, where another status is asked for
  abbrev pub own_dropped : List (Row Meta) → List (Row Meta)
  own_dropped agents =
      if status == all_statuses
      then []
      else select (λ a. not (a.status == status) && a.addr == sender) agents

  partition :
      (agents : List (Row Meta))
      → length (select (λ a. a.status == status) agents)
          + length (select (is_hidden status sender) agents)
          + length (select (λ a. not (a.status == status) && a.addr == sender) agents)
        ≡ length agents
  unfolding is_hidden
  partition [] = omega arith
  partition (a ∷ agents) = ground (arith, partition agents)

  -- The rows that are listed, the counts, and the sender's own row where its status is not asked
  -- for make up all the rows.
  pub roster_accounts :
      (agents : List (Row Meta))
      → length (roster_reply status sender agents).agents
          + total (roster_reply status sender agents).hidden
          + length (own_dropped agents)
        ≡ length agents
  unfolding roster_reply
  roster_accounts agents = elim (Bool-cases (status == all_statuses)) [
    | inl q ↦ rw q (unfold total in omega (arith, length-map (public_row {Meta = Meta}) agents))
    | inr q ↦ rw q (
        unfold total in
        omega (
          arith,
          length-map (public_row {Meta = Meta}) (select (λ a. a.status == status) agents),
          total-count_hidden agents [],
          partition agents,
        ))
  ]
