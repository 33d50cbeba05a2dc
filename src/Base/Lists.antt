-- ===== src/Base/Lists.antt =====
-- Lists measured by native numbers, and Python's comprehensions, `any`, `all` and `range`.
use Prim.Native.Nat.{ℕ, zero, suc, ◌+◌, ◌-◌, ◌≤◌, ◌<◌, min}
use mathlib.Core.Path.{◌≡◌, refl, sym, ap, ◌∙◌}
use mathlib.Core.Logic.{inl, inr}
use mathlib.Core.List.{List, [], ◌∷◌, ◌++◌}
use mathlib.Core.Option.{Option, none, some}
use mathlib.Core.Bool.{Bool, true, false, ◌&&◌, ◌||◌}
use native.Mathlib.Decide.{ℕ_discrete}
use native.Mathlib.Omega.{arith}
use muster_chat.Base.Tests.{if◌then◌else◌, Bool-cases}

-- Membership with its place.
pub data In {ℓ} {A : Type ℓ} (a : A) : List A → Type ℓ where
  here : {x : A} {xs : List A} → x ≡ a → In a (x ∷ xs)
  there : {x : A} {xs : List A} → In a xs → In a (x ∷ xs)

module _ {ℓ} {A : Type ℓ} where
  abbrev pub length : List A → ℕ
  length [] = 0
  length (x ∷ xs) = suc (length xs)

  abbrev pub take : ℕ → List A → List A
  take zero xs = []
  take (suc n) [] = []
  take (suc n) (x ∷ xs) = x ∷ take n xs

  abbrev pub drop : ℕ → List A → List A
  drop zero xs = xs
  drop (suc n) [] = []
  drop (suc n) (x ∷ xs) = drop n xs

  -- `xs[-1]`, `none` for the empty list
  abbrev pub last? : List A → Option A
  last? [] = none
  last? (x ∷ []) = some x
  last? (x ∷ y ∷ xs) = last? (y ∷ xs)

  -- `[x for x in xs if p(x)]`
  abbrev pub select : (A → Bool) → List A → List A
  select p [] = []
  select p (x ∷ xs) = let rest = select p xs in if p x then x ∷ rest else rest

  abbrev pub any : (A → Bool) → List A → Bool
  any p [] = false
  any p (x ∷ xs) = p x || any p xs

  abbrev pub all : (A → Bool) → List A → Bool
  all p [] = true
  all p (x ∷ xs) = p x && all p xs

  abbrev pub All {κ} : (A → Type κ) → List A → Type κ
  All P [] = Unit
  All P (x ∷ xs) = P x × All P xs

  pub length-append : (xs ys : List A) → length (xs ++ ys) ≡ length xs + length ys
  length-append [] ys = omega arith
  length-append (x ∷ xs) ys = omega (arith, length-append xs ys)

module _ {ℓ} {A : Type ℓ} where
  pub take-append-drop : (n : ℕ) (xs : List A) → take n xs ++ drop n xs ≡ xs
  take-append-drop zero xs = refl
  take-append-drop (suc n) [] = refl
  take-append-drop (suc n) (x ∷ xs) = ap (λ l. x ∷ l) (take-append-drop n xs)

  pub length-take : (n : ℕ) (xs : List A) → length (take n xs) ≡ min n (length xs)
  length-take zero xs = omega arith
  length-take (suc n) [] = omega arith
  length-take (suc n) (x ∷ xs) = omega (arith, length-take n xs)

  pub length-drop : (n : ℕ) (xs : List A) → length (drop n xs) ≡ length xs - n
  length-drop zero xs = omega arith
  length-drop (suc n) [] = omega arith
  length-drop (suc n) (x ∷ xs) = omega (arith, length-drop n xs)

  pub nil_of_length : (xs : List A) → length xs ≤ 0 → xs ≡ []
  nil_of_length [] h = refl
  nil_of_length (x ∷ xs) h = absurd (omega arith)

  pub take_all : (n : ℕ) (xs : List A) → length xs ≤ n → take n xs ≡ xs
  take_all zero [] h = refl
  take_all zero (x ∷ xs) h = absurd (omega arith)
  take_all (suc n) [] h = refl
  take_all (suc n) (x ∷ xs) h = ap (λ l. x ∷ l) (take_all n xs (omega arith))

  length-select : (p : A → Bool) (xs : List A) → length (select p xs) ≤ length xs
  length-select p [] = omega arith
  length-select p (x ∷ xs) = ground (arith, length-select p xs)

  -- A comprehension keeps exactly the members that pass the test.
  pub In-select : (p : A → Bool) {a : A} {xs : List A} → In a xs → p a ≡ true → In a (select p xs)
  In-select p {a} (here {x} {xs} e) h = rw (ap p e ∙ h) (here e)
  In-select p {a} (there {x} {xs} m) h = elim (Bool-cases (p x)) [
    | inl q ↦ rw q (there (In-select p m h))
    | inr q ↦ rw q (In-select p m h)
  ]

  pub select-In : (p : A → Bool) {a : A} (xs : List A) → In a (select p xs) → In a xs × (p a ≡ true)
  select-In p [] m = elim m [ ]
  select-In p {a} (x ∷ xs) m = go (p x) refl m (select-In p xs)
    where
      go :
          (b : Bool)
          → p x ≡ b
          → In a (if b then x ∷ select p xs else select p xs)
          → (In a (select p xs) → In a xs × (p a ≡ true))
          → In a (x ∷ xs) × (p a ≡ true)
      go true q (here e) ih = (here e, ap p (sym e) ∙ q)
      go true q (there k) ih = let (m', h) = ih k in (there m', h)
      go false q k ih = let (m', h) = ih k in (there m', h)

  -- What a comprehension leaves out fails the test; what it keeps first stands behind such members.
  pub select-nil : (p : A → Bool) (xs : List A) → select p xs ≡ [] → All (λ x. p x ≡ false) xs
  select-nil p [] h = tt
  select-nil p (x ∷ xs) h = elim (Bool-cases (p x)) [
    | inl q ↦ absurd (ground (arith, rw q at h))
    | inr q ↦ (q, select-nil p xs (rw q at h))
  ]

  pub select-cons :
      (p : A → Bool) (xs : List A) {a : A} {rest : List A}
      → select p xs ≡ a ∷ rest
      → (ys : List A) × (zs : List A) × (xs ≡ ys ++ a ∷ zs)
        × All (λ x. p x ≡ false) ys
        × (p a ≡ true)
        × (select p zs ≡ rest)
  select-cons p [] h = absurd (ground arith)
  select-cons p (x ∷ xs) {a} {rest} h = elim (Bool-cases (p x)) [
    | inl q ↦
        let h' : x ∷ select p xs ≡ a ∷ rest = rw q at h in
        let e : x ≡ a = cc in ([], xs, ap (λ b. b ∷ xs) e, tt, ap p (sym e) ∙ q, cc)
    | inr q ↦
        let (ys, zs, e, none_before, k, after) = select-cons p xs (rw q at h) in
        (x ∷ ys, zs, ap (λ l. x ∷ l) e, (q, none_before), k, after)
  ]

  In-append_right : {a : A} (xs : List A) {ys : List A} → In a ys → In a (xs ++ ys)
  In-append_right [] m = m
  In-append_right (x ∷ xs) m = there (In-append_right xs m)

  pub any_sound : (p : A → Bool) (xs : List A) → any p xs ≡ true → (a : A) × In a xs × (p a ≡ true)
  any_sound p [] h = absurd (ground arith)
  any_sound p (x ∷ xs) h = elim (Bool-cases (p x)) [
    | inl q ↦ (x, here refl, q)
    | inr q ↦ let (a, m, k) = any_sound p xs (rw q at h) in (a, there m, k)
  ]

  pub any_complete : (p : A → Bool) {a : A} {xs : List A} → In a xs → p a ≡ true → any p xs ≡ true
  any_complete p (here e) h = rw (ap p e ∙ h)
  any_complete p (there {x} m) h = ground (arith, any_complete p m h)

abbrev count_up : ℕ → ℕ → List ℕ
count_up a zero = []
count_up a (suc n) = a ∷ count_up (suc a) n

-- `range(a, b)`
abbrev pub range : ℕ → ℕ → List ℕ
range a b = count_up a (b - a)

count_up-In : (a n : ℕ) {i : ℕ} → In i (count_up a n) → (a ≤ i) × (i < a + n)
count_up-In a zero m = elim m [ ]
count_up-In a (suc n) (here e) = (omega arith, omega arith)
count_up-In a (suc n) (there m) = let (h, k) = count_up-In (suc a) n m in (omega arith, omega arith)

In-count_up : (a n i : ℕ) → a ≤ i → i < a + n → In i (count_up a n)
In-count_up a zero i h k = absurd (omega arith)
In-count_up a (suc n) i h k = elim (ℕ_discrete a i) [
  | yes e ↦ here e
  | no ne ↦ there (In-count_up (suc a) n i (omega arith) (omega arith))
]

pub In-range : (a b i : ℕ) → a ≤ i → i < b → In i (range a b)
In-range a b i h k = In-count_up a (b - a) i h (omega arith)

pub range-In : (a b : ℕ) {i : ℕ} → In i (range a b) → (a ≤ i) × (i < b)
range-In a b m = let (h, k) = count_up-In a (b - a) m in (h, omega arith)
