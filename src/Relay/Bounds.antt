-- ===== src/Relay/Bounds.antt =====
-- What is kept and how long the loop waits.
use muster_chat.Base.{
  ◌≤◌, ◌≡◌, refl, ◌∙◌, List, [], ◌∷◌, Option, none, some, Text, codes, ◌==◌, contains, is_empty,
  length, length-take, Bool-cases, inl, inr, arith,
}
use muster_chat.Ops.Types.{Args}
use muster_chat.Relay.{
  Relay, Happening, arrives, ends, event_id, push_content, mark_seen, on_deliver, on_event, on_end,
  happen, relay, render_deliver,
}

-- At most 256 identifiers are kept, and the wait is between a second and a minute.
pub record IsBounded (s : Relay) : Type 0 where
  pub few : length s.seen ≤ 256
  pub least : 1 ≤ s.backoff
  pub most : s.backoff ≤ 60

push_content-seen :
    (o : Option Text) (mid : Text) (s : Relay) → (push_content o mid s).seen ≡ s.seen
unfolding push_content
push_content-seen none mid s = refl
push_content-seen (some t) mid s = ground arith

push_content-backoff :
    (o : Option Text) (mid : Text) (s : Relay) → (push_content o mid s).backoff ≡ s.backoff
unfolding push_content
push_content-backoff none mid s = refl
push_content-backoff (some t) mid s = ground arith

mark_seen-few : (mid : Text) (s : Relay) → length (mark_seen mid s).seen ≤ 256
unfolding mark_seen
mark_seen-few mid s = omega (arith, length-take 255 s.seen)

on_deliver-few : (ev : Args) (s : Relay) → length s.seen ≤ 256 → length (on_deliver ev s).seen ≤ 256
unfolding on_deliver
on_deliver-few ev s h = elim (Bool-cases (is_empty (event_id ev))) [
  | inl q ↦ rw (q, push_content-seen (render_deliver ev) (event_id ev) s) h
  | inr q ↦ elim (Bool-cases (contains s.seen (event_id ev))) [
    | inl k ↦ rw (q, k) h
    | inr k ↦
        rw (q, k, push_content-seen (render_deliver ev) (event_id ev) (mark_seen (event_id ev) s))
          (mark_seen-few (event_id ev) s)
  ]
]

on_deliver-backoff : (ev : Args) (s : Relay) → (on_deliver ev s).backoff ≡ s.backoff
unfolding on_deliver
on_deliver-backoff ev s = elim (Bool-cases (is_empty (event_id ev))) [
  | inl q ↦ rw q (push_content-backoff (render_deliver ev) (event_id ev) s)
  | inr q ↦ elim (Bool-cases (contains s.seen (event_id ev))) [
    | inl k ↦ rw (q, k) refl
    | inr k ↦
        rw (q, k)
          (push_content-backoff (render_deliver ev) (event_id ev) (mark_seen (event_id ev) s)
            ∙ unfold mark_seen in refl)
  ]
]

happen-IsBounded : (h : Happening) (s : Relay) → IsBounded s → IsBounded (happen h s)
unfolding happen on_event on_end
happen-IsBounded (arrives ev) s b =
    let same = on_deliver-backoff ev.fields (record s { backoff = 1 }) in
    elim (Bool-cases (ev.name == codes "error")) [
      | inl e ↦ rw e (record { few = b.few; least = omega arith; most = omega arith })
      | inr e ↦ elim (Bool-cases (ev.name == codes "deliver")) [
        | inl q ↦
            rw (e, q)
              (record {
                few = on_deliver-few ev.fields (record s { backoff = 1 }) b.few;
                least = omega arith;
                most = omega arith;
              })
        | inr q ↦ rw (e, q) (record { few = b.few; least = omega arith; most = omega arith })
      ]
    ]
happen-IsBounded ends s b = record {
  few = b.few;
  least = omega (arith, b.least);
  most = omega arith;
}

-- Whatever happens, at most 256 identifiers are kept, and the wait before a connection is between a
-- second and a minute, if both held before.
pub relay-IsBounded : (hs : List Happening) (s : Relay) → IsBounded s → IsBounded (relay hs s)
unfolding relay
relay-IsBounded [] s b = b
relay-IsBounded (h ∷ hs) s b = relay-IsBounded hs (happen h s) (happen-IsBounded h s b)
