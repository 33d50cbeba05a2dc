-- ===== src/Base/Sort.antt =====
-- Python's `sorted` with a key, which keeps the order of equal items.
use mathlib.Core.Bool.{Bool}
use mathlib.Core.Logic.{inl, inr}
use mathlib.Core.List.{List, [], ◌∷◌, Perm}
use mathlib.Core.List.Perm as Rearranged
use muster_chat.Base.Tests.{if◌then◌else◌, Bool-cases}
use muster_chat.Base.Lists.{All}

module _ {ℓ} {A : Type ℓ} (le : A → A → Bool) where
  unfoldable pub insert_by : A → List A → List A
  insert_by a [] = a ∷ []
  insert_by a (x ∷ xs) = let rest = insert_by a xs in if le a x then a ∷ x ∷ xs else x ∷ rest

  unfoldable pub sort_by : List A → List A
  unfolding insert_by
  sort_by [] = []
  sort_by (x ∷ xs) = insert_by x (sort_by xs)

  insert_by-perm : (a : A) (xs : List A) → Perm (insert_by a xs) (a ∷ xs)
  unfolding insert_by
  insert_by-perm a [] = Rearranged.refl (a ∷ [])
  insert_by-perm a (x ∷ xs) = elim (Bool-cases (le a x)) [
    | inl q ↦ rw q (Rearranged.refl (a ∷ x ∷ xs))
    | inr q ↦
        rw q (Rearranged.trans (Rearranged.cons x (insert_by-perm a xs)) (Rearranged.swap a x xs))
  ]

  -- Sorting rearranges.
  pub sort_by-perm : (xs : List A) → Perm (sort_by xs) xs
  unfolding sort_by
  sort_by-perm [] = Rearranged.refl []
  sort_by-perm (x ∷ xs) =
      Rearranged.trans (insert_by-perm x (sort_by xs)) (Rearranged.cons x (sort_by-perm xs))

  insert_by-All {κ} :
      (P : A → Type κ) (a : A) (xs : List A) → P a → All P xs → All P (insert_by a xs)
  unfolding insert_by
  insert_by-All P a [] h hs = (h, tt)
  insert_by-All P a (x ∷ xs) h (hx, hs) = elim (Bool-cases (le a x)) [
    | inl q ↦ rw q (h, (hx, hs))
    | inr q ↦ rw q (hx, insert_by-All P a xs h hs)
  ]

  pub sort_by-All {κ} : (P : A → Type κ) (xs : List A) → All P xs → All P (sort_by xs)
  unfolding sort_by
  sort_by-All P [] h = tt
  sort_by-All P (x ∷ xs) (h, hs) = insert_by-All P x (sort_by xs) h (sort_by-All P xs hs)
