-- ===== src/Base/Texts.antt =====
-- A Python `str` as the list of its code points: equality, `join`, `split`, and dictionaries keyed
-- by such texts.
use Prim.Native.Nat.{ℕ}
use Prim.Native.Char.{code}
use Prim.Native.String.{String}
use mathlib.Core.Path.{◌≡◌, refl, sym, ap, ◌∙◌}
use mathlib.Core.Option.{Option, none, some}
use mathlib.Core.Logic.{◌↔◌, ◌≢◌, inl, inr}
use mathlib.Core.Bool.{Bool, true, false, ◌&&◌, ◌||◌}
use mathlib.Core.List.{List, [], ◌∷◌, ◌++◌, append-nil}
use native.Mathlib.Omega.{arith}
use muster_chat.Base.Tests.{eqb, eqb_iff, if◌then◌else◌, Bool-cases}
use muster_chat.Base.Lists.{All}

abbrev pub Text : Type 0
Text = List ℕ

-- The code points of a literal.
abbrev pub codes : String → Text
codes String.[] = []
codes (String.◌∷◌ c s) = code c ∷ codes s

infix 50 ◌==◌
unfoldable pub ◌==◌ : Text → Text → Bool
[] == [] = true
[] == (d ∷ t) = false
(c ∷ s) == [] = false
(c ∷ s) == (d ∷ t) = eqb c d && s == t

pub ==_sound : (s t : Text) → (s == t) ≡ true → s ≡ t
unfolding ◌==◌
==_sound [] [] h = refl
==_sound [] (d ∷ t) h = ground arith
==_sound (c ∷ s) [] h = ground arith
==_sound (c ∷ s) (d ∷ t) h = ground (arith, ==_sound s t)

pub ==_refl : (s : Text) → (s == s) ≡ true
unfolding ◌==◌
==_refl [] = refl
==_refl (c ∷ s) = ground (arith, ==_refl s)

pub ==_iff : (s t : Text) → ((s == t) ≡ true) ↔ (s ≡ t)
==_iff s t = (==_sound s t, λ e. rw e (==_refl t))

pub ne_of_== : (s t : Text) → (s == t) ≡ false → s ≢ t
ne_of_== s t h e = ground (arith, ==_iff s t)

pub ==_of_ne : (s t : Text) → s ≢ t → (s == t) ≡ false
==_of_ne s t h = elim (Bool-cases (s == t)) [ inl q ↦ absurd (h (==_sound s t q)) | inr q ↦ q ]

-- `not s`
abbrev pub is_empty : Text → Bool
is_empty [] = true
is_empty (c ∷ s) = false

pub ne_of_is_empty : (s : Text) → is_empty s ≡ false → s ≢ []
ne_of_is_empty [] h = ground arith
ne_of_is_empty (c ∷ s) h = λ e. ground arith

pub is_empty_of_ne : (s : Text) → s ≢ [] → is_empty s ≡ false
is_empty_of_ne [] h = absurd (h refl)
is_empty_of_ne (c ∷ s) h = refl

abbrev pub contains : List Text → Text → Bool
contains [] t = false
contains (s ∷ ss) t = s == t || contains ss t

abbrev pub starts_with : Text → Text → Bool
starts_with s [] = true
starts_with [] (d ∷ p) = false
starts_with (c ∷ s) (d ∷ p) = eqb c d && starts_with s p

-- `s[len(p):]`, which a slice past the end makes empty
abbrev pub drop_prefix : Text → Text → Text
drop_prefix p [] = []
drop_prefix [] (c ∷ s) = c ∷ s
drop_prefix (d ∷ p) (c ∷ s) = drop_prefix p s

pub starts_with_sound : (s p : Text) → starts_with s p ≡ true → s ≡ p ++ drop_prefix p s
starts_with_sound [] [] h = refl
starts_with_sound (c ∷ s) [] h = refl
starts_with_sound [] (d ∷ p) h = absurd (ground arith)
starts_with_sound (c ∷ s) (d ∷ p) h = ground (arith, eqb_iff c d, starts_with_sound s p)

-- `sep.join(parts)`
abbrev pub join : Text → List Text → Text
join sep [] = []
join sep (p ∷ []) = p
join sep (p ∷ q ∷ ps) = p ++ (sep ++ join sep (q ∷ ps))

abbrev push : ℕ → List Text → List Text
push c [] = (c ∷ []) ∷ []
push c (p ∷ ps) = (c ∷ p) ∷ ps

-- `s.split(sep)` at a one-character separator
unfoldable pub split : ℕ → Text → List Text
split sep [] = [] ∷ []
split sep (c ∷ s) = let rest = split sep s in if eqb c sep then [] ∷ rest else push c rest

-- The text does not hold the character.
abbrev pub Lacks : ℕ → Text → Type 0
Lacks c = All (λ d. d ≢ c)

split_at_sep : (sep : ℕ) (s : Text) → split sep (sep ∷ s) ≡ [] ∷ split sep s
unfolding split
split_at_sep sep s = ground arith

push-append :
    (sep : ℕ) (p rest : Text) (q : Text) (qs : List Text)
    → Lacks sep p
    → split sep rest ≡ q ∷ qs
    → split sep (p ++ rest) ≡ (p ++ q) ∷ qs
unfolding split
push-append sep [] rest q qs h e = e
push-append sep (c ∷ p) rest q qs (hc, hp) e = ground (arith, push-append sep p rest q qs hp e)

-- The first part ends at the first separator.
pub split-append :
    (sep : ℕ) (p rest : Text) → Lacks sep p → split sep (p ++ sep ∷ rest) ≡ p ∷ split sep rest
split-append sep p rest h =
    push-append sep p (sep ∷ rest) [] (split sep rest) h (split_at_sep sep rest)
    ∙ ap (λ q. q ∷ split sep rest) (append-nil p)

-- Splitting a join gives the parts back, if there is one and none holds the separator.
pub split-join :
    (sep : ℕ) (p : Text) (ps : List Text)
    → All (Lacks sep) (p ∷ ps)
    → split sep (join (sep ∷ []) (p ∷ ps)) ≡ p ∷ ps
split-join sep p [] (hp, _) =
    cc (push-append sep p [] [] [] hp (unfold split in refl), append-nil p)
split-join sep p (q ∷ ps) (hp, hps) =
    push-append sep p (sep ∷ join (sep ∷ []) (q ∷ ps)) [] (q ∷ ps) hp
      (split_at_sep sep _ ∙ ap (λ l. [] ∷ l) (split-join sep q ps hps))
    ∙ ap (λ x. x ∷ (q ∷ ps)) (append-nil p)

split-cons : (sep : ℕ) (s : Text) → (p : Text) × (ps : List Text) × (split sep s ≡ p ∷ ps)
unfolding split
split-cons sep [] = ([], [], refl)
split-cons sep (c ∷ s) =
    let (p, ps, e) = split-cons sep s in
    elim (Bool-cases (eqb c sep)) [
      | inl q ↦ ([], split sep s, rw q)
      | inr q ↦ (c ∷ p, ps, rw (q, e))
    ]

split-ne-nil : (sep : ℕ) (s : Text) → split sep s ≢ []
split-ne-nil sep s e = let (p, ps, c) = split-cons sep s in cc (e, c)

pub split-Lacks : (sep : ℕ) (s : Text) → All (Lacks sep) (split sep s)
unfolding split
split-Lacks sep [] = (tt, tt)
split-Lacks sep (c ∷ s) =
    let (p, ps, e) = split-cons sep s in
    let h = split-Lacks sep s in
    elim (Bool-cases (eqb c sep)) [
      | inl q ↦ rw q (tt, h)
      | inr q ↦
          let h' : All (Lacks sep) (p ∷ ps) = rw e at h in
          rw (q, e) ((ground (arith, eqb_iff c sep), h'.0), h'.1)
    ]

join-push :
    (sep c : ℕ) (p : Text) (ps : List Text)
    → join (sep ∷ []) ((c ∷ p) ∷ ps) ≡ c ∷ join (sep ∷ []) (p ∷ ps)
join-push sep c p [] = refl
join-push sep c p (q ∷ ps) = refl

-- Joining the parts of a split gives the text back.
pub join-split : (sep : ℕ) (s : Text) → join (sep ∷ []) (split sep s) ≡ s
unfolding split
join-split sep [] = refl
join-split sep (c ∷ s) =
    let (p, ps, e) = split-cons sep s in
    let ih : join (sep ∷ []) (p ∷ ps) ≡ s = rw e at (join-split sep s) in
    elim (Bool-cases (eqb c sep)) [
      | inl q ↦ rw (q, e) (ap (λ t. sep ∷ t) ih ∙ ap (λ d. d ∷ s) (sym ((eqb_iff c sep).0 q)))
      | inr q ↦ rw (q, e) (join-push sep c p ps ∙ ap (λ t. c ∷ t) ih)
    ]

-- Dictionaries with text keys, as the list of their items.
abbrev pub Fields : Type 0
Fields = List (Text × Text)

-- `d.get(k)`
unfoldable pub lookup : Text → Fields → Option Text
lookup k [] = none
lookup k ((j, v) ∷ d) = let rest = lookup k d in if j == k then some v else rest

-- `d[k] = v`, which keeps the place of a key that is there
unfoldable pub put : Text → Text → Fields → Fields
put k v [] = (k, v) ∷ []
put k v ((j, w) ∷ d) = let rest = put k v d in if j == k then (k, v) ∷ d else (j, w) ∷ rest

pub lookup-put :
    (k j v : Text) (d : Fields) → lookup j (put k v d) ≡ (if k == j then some v else lookup j d)
unfolding lookup put
lookup-put k j v [] = refl
lookup-put k j v ((i, w) ∷ d) =
    ground (arith, ==_iff k j, ==_iff i k, ==_iff i j, lookup-put k j v d)
