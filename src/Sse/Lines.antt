-- ===== src/Sse/Lines.antt =====
-- The lines that the client reads are those that the server writes.
use muster_chat.Base.{
  ◌≡◌, ◌⊎◌, inl, inr, refl, sym, ap, ◌∙◌, true, false, not, ◌||◌, List, [], ◌∷◌, ◌++◌, append_assoc,
  append-nil, Option, none, some, Text, codes, eqb, eqb_iff, all, is_line_break, splitlines, split,
  strip, drop_prefix, Bool-cases, arith,
}
use muster_chat.Sse.{
  EventJson, Sent, event, comment, sse, written, dispatched, parse_lines, parse_sse,
}

-- The text breaks its lines at newlines only.
abbrev pub IsPlainText : Text → Type 0
IsPlainText t = all (λ c. not (is_line_break c) || eqb c b'\n') t ≡ true

abbrev blank : Text
blank = b'\n' ∷ b'\n' ∷ []

-- The lines of such a text, where an empty line ends it: `split` has one empty line more.
two_readings :
    (t : Text)
    → IsPlainText (t ++ blank)
    → (l : Text) × (ls : List Text) × (splitlines (t ++ blank) ≡ l ∷ (ls ++ [] ∷ []))
      × (split b'\n' (t ++ blank) ≡ l ∷ (ls ++ [] ∷ [] ∷ []))
unfolding splitlines split
two_readings [] h = ([], [], refl, refl)
two_readings (c ∷ t) h =
    let rest : IsPlainText (t ++ blank) = ground arith in
    let (l, ls, p, q) = two_readings t rest in
    elim (Bool-cases (eqb c b'\n')) [
      | inl k ↦
          let e : c ≡ b'\n' = (eqb_iff c b'\n').0 k in ([], l ∷ ls, rw (e, p) refl, rw (e, q) refl)
      | inr k ↦
          let no_break : is_line_break c ≡ false = ground arith in
          let no_return : eqb c b'\r' ≡ false = ground arith in
          (c ∷ l, ls, rw (no_return, no_break, p) refl, rw (k, q) refl)
    ]

module _ (json : EventJson) where
  open json use {Data, dumps}

  -- An empty line behind an empty line changes nothing.
  parse_more :
      (name : Option Text) (data' ls : List Text)
      → parse_lines json name data' (ls ++ [] ∷ [] ∷ [])
        ≡ parse_lines json name data' (ls ++ [] ∷ [])
  unfolding parse_lines dispatched
  parse_more name data' [] = refl
  parse_more name data' (line ∷ ls) = rw (
    parse_more none [] ls,
    parse_more name data' ls,
    parse_more (some (strip (drop_prefix (codes "event:") line))) data' ls,
    parse_more name (data' ++ strip (drop_prefix (codes "data:") line) ∷ []) ls,
  )

  -- What the server writes ends with an empty line.
  sse-blank : (s : Sent Data) → (t : Text) × (sse json s ≡ t ++ blank)
  unfolding sse
  sse-blank (event name d) = (
    codes "event: " ++ (name ++ (b'\n' ∷ (codes "data: " ++ dumps d))),
    ap (λ t. codes "event: " ++ t)
        (sym (append_assoc name (b'\n' ∷ (codes "data: " ++ dumps d)) blank)),
  )
  sse-blank comment = (codes ": ping", refl)

  written-blank :
      (ss : List (Sent Data))
      → (written json ss ≡ []) ⊎ ((t : Text) × (written json ss ≡ t ++ blank))
  unfolding written
  written-blank [] = inl refl
  written-blank (s ∷ ss) =
      let (u, e) = sse-blank s in
      elim (written-blank ss) [
        | inl k ↦ inr (u, rw (k, e) (append-nil (u ++ blank)))
        | inr (t, k) ↦ inr (sse json s ++ t, rw k (sym (append_assoc (sse json s) t blank)))
      ]

  parse_alike :
      (t : Text)
      → IsPlainText (t ++ blank)
      → parse_sse json (splitlines (t ++ blank)) ≡ parse_sse json (split b'\n' (t ++ blank))
  unfolding parse_sse
  parse_alike t h =
      let (l, ls, p, q) = two_readings t h in
      ap (parse_lines json none []) p
      ∙ sym (parse_more none [] (l ∷ ls))
      ∙ ap (parse_lines json none []) (sym q)

  -- Where the text of a stream breaks its lines at newlines only, all that `splitlines` cuts is read
  -- as what is cut there.
  pub parse_sse-splitlines :
      (ss : List (Sent Data))
      → IsPlainText (written json ss)
      → parse_sse json (splitlines (written json ss))
        ≡ parse_sse json (split b'\n' (written json ss))
  parse_sse-splitlines ss h = elim (written-blank ss) [
    | inl e ↦ rw e (unfold parse_sse parse_lines dispatched splitlines split in refl)
    | inr (t, e) ↦ rw e (parse_alike t (rw e at h))
  ]
