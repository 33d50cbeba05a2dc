-- ===== src/Store/Envelope.antt =====
-- The summary line that a recipient is shown.
use muster_chat.Base.{
  ℕ, ◌≤◌, ◌≡◌, ◌≢◌, refl, sym, ap, ◌∙◌, Bool, true, false, Option, none, some, zero, suc, ◌⊎◌, All,
  is_line_break, [], ◌∷◌, ◌++◌, Text, codes, ◌==◌, ==_sound, ne_of_==, is_empty, strip, first_line,
  take, drop, length, if◌then◌else◌, arith, Bool-cases, inl, inr, take-append-drop, append_assoc,
  length-take,
}

-- `x or y` of texts that may be missing
abbrev pub or_text : Option Text → Text → Text
or_text none y = y
or_text (some x) y = if is_empty x then y else x

-- the part of the subject that is shown
unfoldable pub shown : ℕ → Text → Option Text → Text
shown subject_max body subject = take subject_max (first_line (strip (or_text subject body)))

abbrev hint : Text
hint = codes " · fetch for full"

abbrev mark : Text
mark = codes "❗ "

unfoldable pub envelope : ℕ → Text → Text → Option Text → Bool → Text
unfolding shown
envelope subject_max frm body subject important =
    let s = shown subject_max body subject in
    let line =
      codes "✉ " ++ (frm ++ (codes ": " ++ (s ++ (if s == strip body then [] else hint)))) in
    if important then mark ++ line else line

-- the default of the parameter `subject_max`
abbrev pub subject_max : ℕ
subject_max = 56

first_line-prefix : (s : Text) → (rest : Text) × (first_line s ++ rest ≡ s)
unfolding first_line
first_line-prefix [] = ([], refl)
first_line-prefix (c ∷ s) =
    let (rest, e) = first_line-prefix s in
    elim (Bool-cases (is_line_break c)) [
      | inl q ↦ (c ∷ s, rw q)
      | inr q ↦ (rest, rw q (ap (λ t. c ∷ t) e))
    ]

-- A text in one line.
abbrev pub IsOneLine : Text → Type 0
IsOneLine = All (λ c. is_line_break c ≡ false)

first_line-IsOneLine : (s : Text) → IsOneLine (first_line s)
unfolding first_line
first_line-IsOneLine [] = tt
first_line-IsOneLine (c ∷ s) = elim (Bool-cases (is_line_break c)) [
  | inl q ↦ rw q tt
  | inr q ↦ rw q (q, first_line-IsOneLine s)
]

take-IsOneLine : (n : ℕ) (s : Text) → IsOneLine s → IsOneLine (take n s)
take-IsOneLine zero s h = tt
take-IsOneLine (suc n) [] h = tt
take-IsOneLine (suc n) (c ∷ s) (h, hs) = (h, take-IsOneLine n s hs)

-- What is shown is a prefix, in one line and of limited length, of the stripped subject, or of the
-- stripped body where there is no subject.
shown_lem :
    (max_len : ℕ) (body : Text) (subject : Option Text)
    → (length (shown max_len body subject) ≤ max_len)
      × IsOneLine (shown max_len body subject)
      × ((rest : Text) × (shown max_len body subject ++ rest ≡ strip (or_text subject body)))
unfolding shown
shown_lem max_len body subject =
    let s = strip (or_text subject body) in
    let (rest, e) = first_line-prefix s in
    (
      omega (arith, length-take max_len (first_line s)),
      take-IsOneLine max_len (first_line s) (first_line-IsOneLine s),
      (
        drop max_len (first_line s) ++ rest,
        sym (append_assoc (take max_len (first_line s)) (drop max_len (first_line s)) rest)
            ∙ ap (λ t. t ++ rest) (take-append-drop max_len (first_line s))
            ∙ e,
      ),
    )

-- The end of the line: nothing where the whole body is shown, else the hint to fetch it.
abbrev pub IsTail : Text → Text → Text → Type 0
IsTail body t tail = ((tail ≡ []) × (t ≡ strip body)) ⊎ ((tail ≡ hint) × (t ≢ strip body))

abbrev pub prefix : Bool → Text → Text
prefix important frm = (if important then mark else []) ++ (codes "✉ " ++ (frm ++ codes ": "))

tail_lem : (body t : Text) → IsTail body t (if t == strip body then [] else hint)
tail_lem body t = elim (Bool-cases (t == strip body)) [
  | inl q ↦ rw q (inl (refl, ==_sound t (strip body) q))
  | inr q ↦ rw q (inr (refl, ne_of_== t (strip body) q))
]

line_lem :
    (important : Bool) (frm x : Text)
    → (if important
        then mark ++ (codes "✉ " ++ (frm ++ (codes ": " ++ x)))
        else codes "✉ " ++ (frm ++ (codes ": " ++ x)))
      ≡ prefix important frm ++ x
line_lem true frm x = cc (append_assoc frm (codes ": ") x)
line_lem false frm x = cc (append_assoc frm (codes ": ") x)

-- An envelope is one prefix that names the sender, a text and a tail: the text is a prefix in one
-- line, of at most the given length, of the stripped subject or else body, and the tail is the hint
-- to fetch the message exactly when the text is not the whole stripped body.
pub envelope_lem :
    (max_len : ℕ) (frm body : Text) (subject : Option Text) (important : Bool)
    → (t : Text) × (tail : Text) × (envelope max_len frm body subject important
        ≡ prefix important frm ++ (t ++ tail))
      × (length t ≤ max_len)
      × IsOneLine t
      × ((rest : Text) × (t ++ rest ≡ strip (or_text subject body)))
      × IsTail body t tail
envelope_lem max_len frm body subject important =
    let (len, one, pre) = shown_lem max_len body subject in
    let t = shown max_len body subject in
    (
      t,
      (if t == strip body then [] else hint),
      unfold envelope in line_lem important frm _,
      len,
      one,
      pre,
      tail_lem body t,
    )
