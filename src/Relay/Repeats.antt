-- ===== src/Relay/Repeats.antt =====
-- No message is pushed twice.
use muster_chat.Base.{
  ℕ, ◌+◌, ◌*◌, ◌≤◌, ◌≡◌, refl, sym, ap, ◌∙◌, true, false, List, [], ◌∷◌, Option, none, some, Text,
  codes, ◌==◌, ==_iff, ==_sound, contains, is_empty, min, take_all, length, All, if◌then◌else◌,
  Bool-cases, inl, inr, arith,
}
use muster_chat.Ops.Types.{Args}
use muster_chat.Relay.{
  Push, Relay, started, Happening, arrives, ends, event_id, push_content, mark_seen, on_deliver,
  on_event, on_end, happen, relay, render_deliver,
}

-- the identifiers of what was pushed, where there is one
abbrev pub ids : List Push → List Text
ids [] = []
ids (p ∷ ps) = let rest = ids ps in if is_empty p.msg_id then rest else p.msg_id ∷ rest

-- No text stands in the list twice.
abbrev pub Distinct : List Text → Type 0
Distinct [] = Unit
Distinct (x ∷ xs) = (contains xs x ≡ false) × Distinct xs

abbrev Among : List Text → List Text → Type 0
Among xs ys = All (λ x. contains ys x ≡ true) xs

Among-cons : (y : Text) (xs ys : List Text) → Among xs ys → Among xs (y ∷ ys)
Among-cons y [] ys h = tt
Among-cons y (x ∷ xs) ys (h, hs) = (ground arith, Among-cons y xs ys hs)

contains-Among :
    (x : Text) (xs ys : List Text) → Among xs ys → contains xs x ≡ true → contains ys x ≡ true
contains-Among x [] ys h k = absurd (ground arith)
contains-Among x (z ∷ zs) ys (h, hs) k = elim (Bool-cases (z == x)) [
  | inl q ↦ ap (contains ys) (sym (==_sound z x q)) ∙ h
  | inr q ↦ contains-Among x zs ys hs (rw q at k)
]

-- What holds while at most 256 identifiers have come.
record IsFresh (n : ℕ) (s : Relay) : Type 0 where
  few : length s.seen ≤ n
  kept : Among (ids s.pushed) s.seen
  once : Distinct (ids s.pushed)

-- pushing a line with no identifier
push_content-plain :
    (o : Option Text) (n : ℕ) (s : Relay) → IsFresh n s → IsFresh n (push_content o [] s)
unfolding push_content
push_content-plain none n s h = h
push_content-plain (some t) n s h = elim (Bool-cases (is_empty t)) [
  | inl q ↦ rw q h
  | inr q ↦ rw q (record { few = h.few; kept = h.kept; once = h.once })
]

not_pushed :
    (n : ℕ) (mid : Text) (s : Relay)
    → IsFresh n s
    → contains s.seen mid ≡ false
    → contains (ids s.pushed) mid ≡ false
not_pushed n mid s h new = elim (Bool-cases (contains (ids s.pushed) mid)) [
  | inl q ↦ absurd (ground (arith, contains-Among mid (ids s.pushed) s.seen h.kept q))
  | inr q ↦ q
]

marked :
    (n : ℕ) (mid : Text) (s : Relay) → n + 1 ≤ 256 → IsFresh n s → IsFresh (n + 1) (mark_seen mid s)
unfolding mark_seen
marked n mid s room h =
    let small : length s.seen ≤ n = h.few in
    rw (take_all 255 s.seen (omega arith)) (record {
      few = omega arith;
      kept = Among-cons mid (ids s.pushed) s.seen h.kept;
      once = h.once;
    })

pushed_now :
    (t : Text) (n : ℕ) (mid : Text) (s : Relay)
    → is_empty mid ≡ false
    → contains s.seen mid ≡ false
    → n + 1 ≤ 256
    → IsFresh n s
    → IsFresh
        (n + 1)
        (record (mark_seen mid s) { pushed = record { content = t; msg_id = mid } ∷ s.pushed })
unfolding mark_seen
pushed_now t n mid s ne new room h =
    let small : length s.seen ≤ n = h.few in
    rw (take_all 255 s.seen (omega arith)) (record {
      few = omega arith;
      kept = rw ne (ground (arith, ==_iff mid mid), Among-cons mid (ids s.pushed) s.seen h.kept);
      once = rw ne (not_pushed n mid s h new, h.once);
    })

-- pushing a line of a message that is marked just now
push_content-marked :
    (o : Option Text) (n : ℕ) (mid : Text) (s : Relay)
    → is_empty mid ≡ false
    → contains s.seen mid ≡ false
    → n + 1 ≤ 256
    → IsFresh n s
    → IsFresh (n + 1) (push_content o mid (mark_seen mid s))
unfolding push_content
push_content-marked none n mid s ne new room h = marked n mid s room h
push_content-marked (some t) n mid s ne new room h = elim (Bool-cases (is_empty t)) [
  | inl q ↦ rw q (marked n mid s room h)
  | inr q ↦ rw q (unfold mark_seen in pushed_now t n mid s ne new room h)
]

-- how many identifiers come with a happening
abbrev marks : Happening → ℕ
marks (arrives ev) =
    if ev.name == codes "deliver" then (if is_empty (event_id ev.fields) then 0 else 1) else 0
marks ends = 0

abbrev pub count_ids : List Happening → ℕ
count_ids [] = 0
count_ids (h ∷ hs) = marks h + count_ids hs

more : (n m : ℕ) (s : Relay) → n ≤ m → IsFresh n s → IsFresh m s
more n m s le h = record { few = omega (arith, h.few); kept = h.kept; once = h.once }

empty_text : (t : Text) → is_empty t ≡ true → t ≡ []
empty_text [] h = refl
empty_text (c ∷ t) h = absurd (ground arith)

on_deliver-IsFresh :
    (ev : Args) (n : ℕ) (s : Relay)
    → n + (if is_empty (event_id ev) then 0 else 1) ≤ 256
    → IsFresh n s
    → IsFresh (n + (if is_empty (event_id ev) then 0 else 1)) (on_deliver ev s)
unfolding on_deliver
on_deliver-IsFresh ev n s room h = elim (Bool-cases (is_empty (event_id ev))) [
  | inl q ↦ rw q (
      more n (n + 0) _ (omega arith)
        (rw (empty_text (event_id ev) q) (push_content-plain (render_deliver ev) n s h)))
  | inr q ↦ elim (Bool-cases (contains s.seen (event_id ev))) [
    | inl k ↦ rw (q, k) (more n (n + 1) s (omega arith) h)
    | inr k ↦
        rw (q, k) (push_content-marked (render_deliver ev) n (event_id ev) s q k (rw q at room) h)
  ]
]

waiting : (n b : ℕ) (s : Relay) → IsFresh n s → IsFresh n (record s { backoff = b })
waiting n b s h = record { few = h.few; kept = h.kept; once = h.once }

happen-IsFresh :
    (h : Happening) (n : ℕ) (s : Relay)
    → n + marks h ≤ 256
    → IsFresh n s
    → IsFresh (n + marks h) (happen h s)
unfolding happen on_event on_end
happen-IsFresh (arrives ev) n s room k = elim (Bool-cases (ev.name == codes "error")) [
  | inl e ↦ rw e (more n (n + marks (arrives ev)) _ (omega arith) (waiting n 2 s k))
  | inr e ↦ elim (Bool-cases (ev.name == codes "deliver")) [
    | inl q ↦
        rw (e, q)
          (on_deliver-IsFresh ev.fields n (record s { backoff = 1 }) (rw q at room)
            (waiting n 1 s k))
    | inr q ↦ rw (e, q) (more n (n + 0) _ (omega arith) (waiting n 1 s k))
  ]
]
happen-IsFresh ends n s room k =
    more n (n + 0) _ (omega arith) (waiting n (min (s.backoff * 2) 60) s k)

relay-IsFresh :
    (hs : List Happening) (n : ℕ) (s : Relay)
    → n + count_ids hs ≤ 256
    → IsFresh n s
    → IsFresh (n + count_ids hs) (relay hs s)
unfolding relay
relay-IsFresh [] n s room k = more n (n + 0) s (omega arith) k
relay-IsFresh (h ∷ hs) n s room k =
    more (n + marks h + count_ids hs) (n + (marks h + count_ids hs)) _ (omega arith) (
      relay-IsFresh hs (n + marks h) (happen h s) (omega arith)
        (happen-IsFresh h n s (omega arith) k))

-- While at most 256 events with an identifier have come, no message is pushed twice.
pub relay-Distinct :
    (hs : List Happening) → count_ids hs ≤ 256 → Distinct (ids (relay hs started).pushed)
relay-Distinct hs room =
    (relay-IsFresh hs 0 started (omega arith)
      (record { few = omega arith; kept = tt; once = tt })).once
