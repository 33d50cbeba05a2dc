-- ===== src/Base/Ends.antt =====
-- Ends of a list: what is left of it when some of its first elements are gone.
use mathlib.Core.Path.{◌≡◌, refl, ap, ◌∙◌}
use mathlib.Core.List.{List, [], ◌∷◌, ◌++◌, map}
use Prim.Native.Nat.{ℕ, zero, suc}
use muster_chat.Base.Lists.{drop}

abbrev pub IsEnd : {A : Type 0} → List A → List A → Type 0
IsEnd ys xs = (n : ℕ) × (ys ≡ drop n xs)

module _ {A : Type 0} where
  pub IsEnd-same : {ys xs : List A} → ys ≡ xs → IsEnd ys xs
  IsEnd-same e = (0, e)

  pub IsEnd-nil : (xs : List A) → IsEnd [] xs
  IsEnd-nil [] = (0, refl)
  IsEnd-nil (x ∷ xs) = let (n, e) = IsEnd-nil xs in (suc n, e)

  drop-IsEnd : (m n : ℕ) (xs : List A) → IsEnd (drop m (drop n xs)) xs
  drop-IsEnd m zero xs = (m, refl)
  drop-IsEnd zero (suc n) xs = (suc n, refl)
  drop-IsEnd (suc m) (suc n) [] = (0, refl)
  drop-IsEnd (suc m) (suc n) (x ∷ xs) = let (k, e) = drop-IsEnd (suc m) n xs in (suc k, e)

  pub IsEnd-trans : {zs ys xs : List A} → IsEnd zs ys → IsEnd ys xs → IsEnd zs xs
  IsEnd-trans {xs = xs} (m, e) (n, f) = let (k, g) = drop-IsEnd m n xs in (k, e ∙ ap (drop m) f ∙ g)

  drop_under : (n : ℕ) (xs zs : List A) → IsEnd (drop n xs ++ zs) (xs ++ zs)
  drop_under zero xs zs = (0, refl)
  drop_under (suc n) [] zs = (0, refl)
  drop_under (suc n) (x ∷ xs) zs = let (k, e) = drop_under n xs zs in (suc k, e)

  -- What comes behind both.
  pub IsEnd-append : {ys xs : List A} (zs : List A) → IsEnd ys xs → IsEnd (ys ++ zs) (xs ++ zs)
  IsEnd-append {xs = xs} zs (n, e) = let (k, f) = drop_under n xs zs in (k, ap (λ l. l ++ zs) e ∙ f)

module _ {A B : Type 0} (f : A → B) where
  map-drop : (n : ℕ) (xs : List A) → map f (drop n xs) ≡ drop n (map f xs)
  map-drop zero xs = refl
  map-drop (suc n) [] = refl
  map-drop (suc n) (x ∷ xs) = map-drop n xs

  pub map-append : (xs ys : List A) → map f (xs ++ ys) ≡ map f xs ++ map f ys
  map-append [] ys = refl
  map-append (x ∷ xs) ys = ap (λ l. f x ∷ l) (map-append xs ys)

  -- the images of an end, and of an end with one more
  pub map-IsEnd : {ys xs : List A} → IsEnd ys xs → IsEnd (map f ys) (map f xs)
  map-IsEnd {xs = xs} (n, e) = (n, ap (map f) e ∙ map-drop n xs)

  pub map-IsEnd_behind :
      (n : ℕ) (y : A) (xs : List A) → IsEnd (map f (drop n xs ++ y ∷ [])) (map f xs ++ f y ∷ [])
  map-IsEnd_behind n y xs =
      let (k, e) = drop_under n (map f xs) (f y ∷ []) in
      (k, map-append (drop n xs) (y ∷ []) ∙ ap (λ l. l ++ f y ∷ []) (map-drop n xs) ∙ e)
