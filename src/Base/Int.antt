-- ===== src/Base/Int.antt =====
-- Python's `int`: `str(n)` of a number that is not negative, and `int(s)`.
use Prim.Native.Nat.{ℕ, zero, suc, ◌+◌, ◌-◌, ◌*◌, ◌/◌, ◌%◌, ◌<◌, ◌≤◌}
use mathlib.Core.Path.{◌≡◌, refl, ap, ◌∙◌}
use mathlib.Core.Bool.{Bool, true, false, ◌&&◌}
use mathlib.Core.List.{[], ◌∷◌}
use mathlib.Core.Option.{Option, none, some}
use native.Mathlib.Omega.{arith}
use muster_chat.Base.Tests.{ltb, leb, eqb, if◌then◌else◌}
use muster_chat.Base.Lists.{All}
use muster_chat.Base.Strip.{strip, strip_id, is_space}
use muster_chat.Base.Texts.{Text, codes}

-- `negsuc n` is -(n + 1).
pub data ℤ : Type 0 where
  pos : ℕ → ℤ
  negsuc : ℕ → ℤ

-- `z > n`
abbrev pub above : ℤ → ℕ → Bool
above (pos m) n = ltb n m
above (negsuc m) n = false

decimal_digits : ℕ → ℕ → Text → Text
decimal_digits zero n out = out
decimal_digits (suc fuel) n out =
    let rest = decimal_digits fuel (n / 10) ((b'0' + n % 10) ∷ out) in
    if ltb n 10 then (b'0' + n % 10) ∷ out else rest

-- `str(n)`: there are fewer digits than `n + 1`.
unfoldable pub decimal : ℕ → Text
unfolding decimal_digits
decimal n = decimal_digits (suc n) n []

abbrev is_digit : ℕ → Bool
is_digit c = leb b'0' c && leb c b'9'

-- digits, with single underscores between them; the flag says that a digit stands before
read_digits : Bool → ℕ → Text → Option ℕ
read_digits after_digit n [] = if after_digit then some n else none
read_digits after_digit n (c ∷ s) =
    let next = read_digits true (n * 10 + (c - b'0')) s in
    let gap = read_digits false n s in
    if is_digit c then next else if eqb c b'_' && after_digit then gap else none

positive : Option ℕ → Option ℤ
positive none = none
positive (some n) = some (pos n)

negative : Option ℕ → Option ℤ
negative none = none
negative (some zero) = some (pos zero)
negative (some (suc n)) = some (negsuc n)

read_signed : Text → Option ℤ
read_signed [] = none
read_signed (c ∷ s) =
    if eqb c b'-'
    then negative (read_digits false 0 s)
    else if eqb c b'+'
    then positive (read_digits false 0 s)
    else positive (read_digits false 0 (c ∷ s))

-- `int(s)`, where `none` is a `ValueError`. Of the digits, those of ASCII are read.
unfoldable pub int_of_text : Text → Option ℤ
unfolding read_digits positive negative read_signed
int_of_text s = read_signed (strip s)

abbrev IsDigit : ℕ → Type 0
IsDigit c = (b'0' ≤ c) × (c ≤ b'9')

decimal_digits-IsDigit :
    (fuel n : ℕ) (out : Text) → All IsDigit out → All IsDigit (decimal_digits fuel n out)
unfolding decimal_digits
decimal_digits-IsDigit zero n out h = h
decimal_digits-IsDigit (suc fuel) n out h =
    ground (arith, decimal_digits-IsDigit fuel (n / 10) ((b'0' + n % 10) ∷ out))

digit_not_space : (c : ℕ) → IsDigit c → is_space c ≡ false
digit_not_space c h = ground arith

digits_not_space : (s : Text) → All IsDigit s → All (λ c. is_space c ≡ false) s
digits_not_space [] h = tt
digits_not_space (c ∷ s) (h, hs) = (digit_not_space c h, digits_not_space s hs)

read_signed_digits :
    (c : ℕ) (s : Text) → IsDigit c → read_signed (c ∷ s) ≡ positive (read_digits false 0 (c ∷ s))
unfolding read_signed
read_signed_digits c s h = ground arith

-- After its first digit the flag no longer matters.
read-decimal_digits :
    (fuel n : ℕ) (out : Text)
    → n < fuel
    → read_digits false 0 (decimal_digits fuel n out) ≡ read_digits true n out
unfolding decimal_digits read_digits
read-decimal_digits zero n out h = absurd (omega arith)
read-decimal_digits (suc fuel) n out h =
    ground (arith, read-decimal_digits fuel (n / 10) ((b'0' + n % 10) ∷ out))

read_signed-digits :
    (s : Text) (n : ℕ)
    → All IsDigit s
    → read_digits false 0 s ≡ some n
    → read_signed s ≡ some (pos n)
unfolding read_signed read_digits positive
read_signed-digits [] n d h = cc
read_signed-digits (c ∷ s) n (d, _) h = read_signed_digits c s d ∙ ap positive h

-- What `str` writes, `int` reads.
pub int_of_text-decimal : (n : ℕ) → int_of_text (decimal n) ≡ some (pos n)
unfolding int_of_text decimal
int_of_text-decimal n =
    let d = decimal_digits-IsDigit (suc n) n [] tt in
    ap read_signed (strip_id _ (digits_not_space _ d))
    ∙ read_signed-digits _ n d (read-decimal_digits (suc n) n [] (omega arith) ∙ refl)

decimal_example : decimal 1070 ≡ codes "1070"
unfolding decimal
decimal_example = refl

int_of_text_example : int_of_text (codes " -1_070 ") ≡ some (negsuc 1069)
unfolding int_of_text strip
int_of_text_example = refl
