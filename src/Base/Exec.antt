-- ===== src/Base/Exec.antt =====
-- A handler that reads and changes a state and may raise: what was written before a raise stays
-- written. The module is used by its name, since `Result` has the same operators.
use mathlib.Core.Bool.{Bool, true, false}
use muster_chat.Base.Results.{Result, ok, err}

abbrev pub Exec : Type 0 → Type 0 → Type 0 → Type 0
Exec S E A = S → Result E A × S

module _ {S E A : Type 0} where
  abbrev pub pure : A → Exec S E A
  pure a s = (ok a, s)

  abbrev pub lift : Result E A → Exec S E A
  lift r s = (r, s)

  -- a computation that only reads
  abbrev pub reads : (S → Result E A) → Exec S E A
  reads f s = (f s, s)

-- raises the error unless the test holds
abbrev pub require : {S E : Type 0} → Bool → E → Exec S E (Unit {0})
require true e s = (ok tt, s)
require false e s = (err e, s)

module _ {S E A B : Type 0} where
  abbrev pub continue : Result E A → (A → Exec S E B) → Exec S E B
  continue (ok a) f s = f a s
  continue (err e) f s = (err e, s)

  infixl 5 ◌>>=◌ ◌>>◌
  abbrev pub ◌>>=◌ : Exec S E A → (A → Exec S E B) → Exec S E B
  ◌>>=◌ m f s = let (r, s') = m s in continue r f s'

  abbrev pub ◌>>◌ : Exec S E A → Exec S E B → Exec S E B
  m >> n = m >>= λ _. n
