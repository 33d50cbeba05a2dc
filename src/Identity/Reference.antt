-- ===== src/Identity/Reference.antt =====
-- Which references match an address: the contiguous slices of its segments.
use mathlib.Core.Path.{subst, subst₂}
use muster_chat.Base.{
  ℕ, zero, suc, ◌+◌, ◌-◌, ◌<◌, ◌≡◌, ◌≢◌, refl, ap, ◌∙◌, ◌↔◌, List, [], ◌∷◌, ◌++◌, true, Bool, Text,
  ◌==◌, ==_iff, ==_sound, split, join, length, take, drop, any, any_sound, any_complete, In-range,
  range-In, range, arith, take-append-drop, length-append,
}
use muster_chat.Identity.{slash, slice_text, matches}

-- `ref` is some consecutive segments, joined again.
abbrev pub IsSlice : Text → List Text → Type 0
IsSlice ref segs =
    (before : List Text) × (middle : List Text) × (after : List Text) × (before ++ (middle ++ after)
      ≡ segs)
    × (middle ≢ [])
    × (join (slash ∷ []) middle ≡ ref)

take_of_append {ℓ} : {A : Type ℓ} (xs ys : List A) → take (length xs) (xs ++ ys) ≡ xs
take_of_append [] ys = refl
take_of_append (x ∷ xs) ys = ap (λ l. x ∷ l) (take_of_append xs ys)

drop_of_append {ℓ} : {A : Type ℓ} (xs ys : List A) → drop (length xs) (xs ++ ys) ≡ ys
drop_of_append [] ys = refl
drop_of_append (x ∷ xs) ys = drop_of_append xs ys

length-pos {ℓ} : {A : Type ℓ} (xs : List A) → xs ≢ [] → 0 < length xs
length-pos [] h = absurd (h refl)
length-pos (x ∷ xs) h = omega arith

length-drop {ℓ} : {A : Type ℓ} (n : ℕ) (xs : List A) → length (drop n xs) ≡ length xs - n
length-drop zero xs = omega arith
length-drop (suc n) [] = omega arith
length-drop (suc n) (x ∷ xs) = omega (arith, length-drop n xs)

take-ne-nil {ℓ} : {A : Type ℓ} (n : ℕ) (xs : List A) → 0 < n → 0 < length xs → take n xs ≢ []
take-ne-nil zero xs h k e = absurd (omega arith)
take-ne-nil (suc n) [] h k e = absurd (omega arith)
take-ne-nil (suc n) (x ∷ xs) h k e = ground arith

-- The slice between two positions is one.
slice_text-IsSlice :
    (segs : List Text) (i j : ℕ) → i < j → i < length segs → IsSlice (slice_text segs i j) segs
slice_text-IsSlice segs i j h k = (
  take i segs,
  take (j - i) (drop i segs),
  drop (j - i) (drop i segs),
  ap (λ l. take i segs ++ l) (take-append-drop (j - i) (drop i segs)) ∙ take-append-drop i segs,
  take-ne-nil (j - i) (drop i segs) (omega arith) (omega (arith, length-drop i segs)),
  refl,
)

slice_of_append :
    (b m a : List Text)
    → slice_text (b ++ (m ++ a)) (length b) (length b + length m) ≡ join (slash ∷ []) m
slice_of_append b m a =
    let e : length b + length m - length b ≡ length m = omega arith in
    rw (drop_of_append b (m ++ a), e, take_of_append m a)

length-slice : (b m a : List Text) → length (b ++ (m ++ a)) ≡ length b + (length m + length a)
length-slice b m a = omega (arith, length-append b (m ++ a), length-append m a)

-- the two loops of `matches`
abbrev scan : Text → List Text → Bool
scan ref segs =
    any (λ i. any (λ j. slice_text segs i j == ref) (range (i + 1) (length segs + 1)))
      (range 0 (length segs))

scan_sound : (ref : Text) (segs : List Text) → scan ref segs ≡ true → IsSlice ref segs
scan_sound ref segs h =
    let (i, mi, hi) = any_sound _ (range 0 (length segs)) h in
    let (j, mj, hj) = any_sound _ (range (i + 1) (length segs + 1)) hi in
    subst (λ t. IsSlice t segs) (==_sound _ ref hj)
      (slice_text-IsSlice segs i j (omega (arith, range-In _ _ mj)) (range-In _ _ mi).1)

scan_complete : (b m a : List Text) → m ≢ [] → scan (join (slash ∷ []) m) (b ++ (m ++ a)) ≡ true
scan_complete b m a ne =
    let lens = length-slice b m a in
    let pos = length-pos m ne in
    let segs = b ++ (m ++ a) in
    let ref = join (slash ∷ []) m in
    any_complete (λ i. any (λ j. slice_text segs i j == ref) (range (i + 1) (length segs + 1)))
      (In-range 0 (length segs) (length b) (omega arith) (omega arith))
      (any_complete (λ j. slice_text segs (length b) j == ref)
        (In-range (length b + 1) (length segs + 1) (length b + length m) (omega arith)
          (omega arith))
        ((==_iff _ _).1 (slice_of_append b m a)))

-- A reference matches an address exactly when it is not empty and is a run of consecutive segments
-- of the address, joined by slashes.
pub matches_iff :
    (ref addr : Text) → (matches ref addr ≡ true) ↔ ((ref ≢ []) × IsSlice ref (split slash addr))
unfolding matches
matches_iff [] addr = (λ h. absurd (ground arith), λ (n, _). absurd (n refl))
matches_iff (c ∷ ref) addr = (
  λ h. (λ e. ground arith, scan_sound (c ∷ ref) (split slash addr) h),
  λ (_, (b, m, a, e, ne, r)). subst₂ (λ t segs. scan t segs ≡ true) r e (scan_complete b m a ne),
)
