-- ===== src/Base/Results.antt =====
-- A computation that may raise: Python's exceptions as values.
use mathlib.Core.Path.{◌≡◌, refl}
use mathlib.Core.Logic.{◌⊎◌, inl, inr}
use native.Mathlib.Omega.{arith}

pub data Result {ℓ} (E : Type ℓ) (A : Type ℓ) : Type ℓ where
  err : E → Result E A
  ok : A → Result E A

module _ {ℓ} {E A B : Type ℓ} where
  -- `raise` passes by what comes after it
  infixl 5 ◌>>=◌
  abbrev pub ◌>>=◌ : Result E A → (A → Result E B) → Result E B
  (err e) >>= next = err e
  (ok a) >>= next = next a

  -- Inversion of a successful bind.
  pub >>=-eq-ok :
      (r : Result E A) (next : A → Result E B) {out : B}
      → (r >>= next) ≡ ok out
      → (x : A) × (r ≡ ok x) × (next x ≡ ok out)
  >>=-eq-ok (err e) next ran = absurd (ground arith)
  >>=-eq-ok (ok x) next ran = (x, refl, ran)

-- an error under another name
abbrev pub map_err {ℓ} : {E F A : Type ℓ} → (E → F) → Result E A → Result F A
map_err f (err e) = err (f e)
map_err f (ok a) = ok a

pub ok-injective {ℓ} : {E A : Type ℓ} {a b : A} → ◌≡◌ {A = Result E A} (ok a) (ok b) → a ≡ b
ok-injective h = cc

pub err-injective {ℓ} : {E A : Type ℓ} {a b : E} → ◌≡◌ {A = Result E A} (err a) (err b) → a ≡ b
err-injective h = cc

pub Result-cases {ℓ} :
    {E A : Type ℓ} (r : Result E A) → ((a : A) × (r ≡ ok a)) ⊎ ((e : E) × (r ≡ err e))
Result-cases (ok a) = inl (a, refl)
Result-cases (err e) = inr (e, refl)
