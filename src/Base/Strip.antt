-- ===== src/Base/Strip.antt =====
-- `strip`, `splitlines` and the length of the UTF-8 encoding of a text.
use Prim.Native.Nat.{ℕ, ◌+◌}
use mathlib.Core.Path.{◌≡◌, refl, ap, ◌∙◌}
use mathlib.Core.Bool.{Bool, false, ◌&&◌, ◌||◌}
use mathlib.Core.List.{List, [], ◌∷◌, ◌++◌, reverse, reverse-cons, reverse-reverse}
use native.Mathlib.Omega.{arith}
use muster_chat.Base.Tests.{ltb, leb, eqb, if◌then◌else◌}
use muster_chat.Base.Lists.{All}
use muster_chat.Base.Texts.{Text, starts_with}

-- `str.isspace` of one character
abbrev pub is_space : ℕ → Bool
is_space c =
    leb 0x09 c && leb c 0x0d
    || leb 0x1c c && leb c 0x20
    || eqb c 0x85
    || eqb c 0xa0
    || eqb c 0x1680
    || leb 0x2000 c && leb c 0x200a
    || eqb c 0x2028
    || eqb c 0x2029
    || eqb c 0x202f
    || eqb c 0x205f
    || eqb c 0x3000

lstrip : Text → Text
lstrip [] = []
lstrip (c ∷ s) = let rest = lstrip s in if is_space c then rest else c ∷ s

-- `s.strip()`
unfoldable pub strip : Text → Text
unfolding lstrip
strip s = reverse (lstrip (reverse (lstrip s)))

All-append : (P : ℕ → Type 0) (s t : Text) → All P s → All P t → All P (s ++ t)
All-append P [] t h k = k
All-append P (c ∷ s) t (h, hs) k = (h, All-append P s t hs k)

pub All-reverse : (P : ℕ → Type 0) (s : Text) → All P s → All P (reverse s)
All-reverse P [] h = h
All-reverse P (c ∷ s) (h, hs) =
    rw (reverse-cons c s) (All-append P (reverse s) (c ∷ []) (All-reverse P s hs) (h, tt))

abbrev NoSpace : Text → Type 0
NoSpace = All (λ c. is_space c ≡ false)

lstrip_id : (s : Text) → NoSpace s → lstrip s ≡ s
unfolding lstrip
lstrip_id [] h = refl
lstrip_id (c ∷ s) (h, _) = ground arith

-- Text with no white space is left alone.
pub strip_id : (s : Text) → NoSpace s → strip s ≡ s
unfolding strip
strip_id s h =
    ap (λ t. reverse (lstrip (reverse t))) (lstrip_id s h)
    ∙ ap reverse (lstrip_id (reverse s) (All-reverse (λ c. is_space c ≡ false) s h))
    ∙ reverse-reverse s

-- the characters at which `str.splitlines` cuts
abbrev pub is_line_break : ℕ → Bool
is_line_break c =
    leb 0x0a c && leb c 0x0d
    || leb 0x1c c && leb c 0x1e
    || eqb c 0x85
    || eqb c 0x2028
    || eqb c 0x2029

-- `s.splitlines()[0]` of a text that is not empty
unfoldable pub first_line : Text → Text
first_line [] = []
first_line (c ∷ s) = let rest = first_line s in if is_line_break c then [] else c ∷ rest

-- a character before the lines of the rest
abbrev pub prepend : ℕ → List Text → List Text
prepend c [] = (c ∷ []) ∷ []
prepend c (l ∷ ls) = (c ∷ l) ∷ ls

-- `s.splitlines()`, where a carriage return and a newline are one break
unfoldable pub splitlines : Text → List Text
splitlines [] = []
splitlines (c ∷ s) =
    let rest = splitlines s in
    if eqb c b'\r' && starts_with s (b'\n' ∷ [])
    then rest
    else if is_line_break c
    then [] ∷ rest
    else prepend c rest

-- `len(s.encode())`: the bytes of the UTF-8 encoding
unfoldable pub utf8_len : Text → ℕ
utf8_len [] = 0
utf8_len (c ∷ s) =
    (if ltb c 0x80 then 1 else if ltb c 0x800 then 2 else if ltb c 0x10000 then 3 else 4)
    + utf8_len s
