-- ===== src/Base/Handlers.antt =====
-- Rules for handlers: what a successful run passed through, and what a handler keeps.
use mathlib.Core.Path.{◌≡◌, refl, ap}
use mathlib.Core.Bool.{Bool, true, false}
use native.Mathlib.Omega.{arith}
use muster_chat.Base.Results.{Result, ok, err, err-injective}
use muster_chat.Base.Tests.{if◌then◌else◌}
use muster_chat.Base.Exec.{Exec, continue, ◌>>=◌, pure, lift, reads, require}

-- Two runs that end alike ended with the same answer in the same state.
pub ended_alike :
    {S E A : Type 0} (a a' : A) (s s' : S)
    → ◌≡◌ {A = Result E A × S} (ok a, s) (ok a', s')
    → (a ≡ a') × (s ≡ s')
ended_alike a a' s s' h = (cc (ap (λ p. p.0) h), ap (λ p. p.1) h)

-- Each rule hands what it finds to a continuation, so that a proof goes through a block step by step.
module _ {S E A B C : Type 0} where
  -- A successful block succeeded in its first step and then in the rest: where that step only reads,
  pub after_reads :
      (r : Result E A) (f : A → Exec S E B) (t : S) {b : B} {s' : S}
      → continue r f t ≡ (ok b, s')
      → ((a : A) → r ≡ ok a → f a t ≡ (ok b, s') → C)
      → C
  after_reads (ok a) f t h k = k a refl h
  after_reads (err e) f t h k = absurd (ground arith)

  -- and where it may write.
  pub after_step :
      (m : Exec S E A) (f : A → Exec S E B) (s : S) {b : B} {s' : S}
      → (m >>= f) s ≡ (ok b, s')
      → ((a : A) (t : S) → m s ≡ (ok a, t) → f a t ≡ (ok b, s') → C)
      → C
  after_step m f s h k =
      after_reads (m s).0 f (m s).1 h (λ a q l. k a (m s).1 (ap (λ r. (r, (m s).1)) q) l)

-- An answer that is made of another, as a dictionary is of a handler's, changes neither the state nor
-- an error.
module _ {S E A B : Type 0} where
  pub renamed_state : (r : Result E A) (f : A → B) (t : S) → (continue r (λ a. pure (f a)) t).1 ≡ t
  renamed_state (ok a) f t = refl
  renamed_state (err e) f t = refl

  pub renamed_error :
      (r : Result E A) (f : A → B) (t : S) (e : E)
      → (continue r (λ a. pure (f a)) t).0 ≡ err e
      → r ≡ err e
  renamed_error (ok a) f t e h = absurd (ground arith)
  renamed_error (err e') f t e h = ap err (err-injective h)

module _ {S E A B C : Type 0} where
  -- A block that fails has failed in its first step or in the rest.
  pub after_error :
      (r : Result E A) (f : A → Exec S E B) (t : S) {e : E}
      → (continue r f t).0 ≡ err e
      → (r ≡ err e → C)
      → ((a : A) → r ≡ ok a → (f a t).0 ≡ err e → C)
      → C
  after_error (ok a) f t h k l = l a refl h
  after_error (err e') f t h k l = k (ap err (err-injective h))

pub after_require :
    {S E B C : Type 0} (t : Bool) (e : E) (f : Unit {0} → Exec S E B) (s : S) {b : B} {s' : S}
    → (require t e >>= f) s ≡ (ok b, s')
    → (t ≡ true → f tt s ≡ (ok b, s') → C)
    → C
after_require true e f s h k = k refl h
after_require false e f s h k = absurd (ground arith)

-- `m` keeps `P`, however it ends.
pub record Keeps {S E A : Type 0} (P : S → Type 0) (m : Exec S E A) : Type 0 where
  pub at : (s : S) → P s → P (m s).1

-- `m` keeps `P` where it ends in an error.
pub record KeepsOnError {S E A : Type 0} (P : S → Type 0) (m : Exec S E A) : Type 0 where
  pub at : (s : S) (e : E) → P s → (m s).0 ≡ err e → P (m s).1

module _ {S E A : Type 0} {P : S → Type 0} where
  pub Keeps-reads : (f : S → Result E A) → Keeps P (reads f)
  Keeps-reads f = record { at = λ s h. h }

  pub Keeps-lift : (r : Result E A) → Keeps P (lift {S = S} r)
  Keeps-lift r = record { at = λ s h. h }

require_state :
    {S E : Type 0} (P : S → Type 0) (t : Bool) (e : E) (s : S) → P s → P (require t e s).1
require_state P true e s h = h
require_state P false e s h = h

module _ {S E : Type 0} {P : S → Type 0} where
  pub Keeps-require : (t : Bool) (e : E) → Keeps P (require {S = S} t e)
  Keeps-require t e = record { at = require_state P t e }

module _ {S E A B : Type 0} {P : S → Type 0} where
  continue_state :
      (r : Result E A) (f : A → Exec S E B) (t : S) (e : E)
      → P t
      → ((a : A) → KeepsOnError P (f a))
      → (continue r f t).0 ≡ err e
      → P (continue r f t).1
  continue_state (ok a) f t e h k q = (k a).at t e h q
  continue_state (err e') f t e h k q = h

  pub KeepsOnError-bind :
      (m : Exec S E A) (f : A → Exec S E B)
      → Keeps P m
      → ((a : A) → KeepsOnError P (f a))
      → KeepsOnError P (m >>= f)
  KeepsOnError-bind m f km kf = record {
    at = λ s e h q. continue_state (m s).0 f (m s).1 e (km.at s h) kf q;
  }

module _ {S E A B : Type 0} {P : S → Type 0} where
  continue_keeps :
      (r : Result E A) (f : A → Exec S E B) (t : S)
      → P t
      → ((a : A) → Keeps P (f a))
      → P (continue r f t).1
  continue_keeps (ok a) f t h k = (k a).at t h
  continue_keeps (err e) f t h k = h

  pub Keeps-bind :
      (m : Exec S E A) (f : A → Exec S E B)
      → Keeps P m
      → ((a : A) → Keeps P (f a))
      → Keeps P (m >>= f)
  Keeps-bind m f km kf = record { at = λ s h. continue_keeps (m s).0 f (m s).1 (km.at s h) kf }

module _ {S E A : Type 0} {P : S → Type 0} where
  pub Keeps-if :
      (t : Bool) (m n : Exec S E A) → Keeps P m → Keeps P n → Keeps P (if t then m else n)
  Keeps-if true m n km kn = km
  Keeps-if false m n km kn = kn
