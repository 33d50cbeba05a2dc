-- ===== src/Stream/Session/Told.antt =====
-- What a stream has written and what waits for it, phase by phase.
use muster_chat.Base.{
  ℕ, ◌≤◌, ◌≡◌, refl, sym, ap, ◌∙◌, List, [], ◌∷◌, ◌++◌, append_assoc, append-nil, Text, eqb, length,
  arith, Bool-cases, inl, inr, if◌then◌else◌, Result, ok, err,
}
use muster_chat.Store.Agents.{Crash}
use muster_chat.Store.Deliver.{Event}
use muster_chat.Stream.{Frame, deliver, error, ping, nudge}
use muster_chat.Stream.Session.{
  Phase, starting, registered, listening, streaming, ended, Session, Act, published, on_subscribe,
  forward, on_forward, on_published,
}

-- the events among what was written
abbrev pub delivered : List Frame → List Event
delivered [] = []
delivered (deliver e ∷ fs) = e ∷ delivered fs
delivered (error e ∷ fs) = delivered fs
delivered (ping ∷ fs) = delivered fs

pub delivered-append : (fs gs : List Frame) → delivered (fs ++ gs) ≡ delivered fs ++ delivered gs
delivered-append [] gs = refl
delivered-append (deliver e ∷ fs) gs = ap (λ l. e ∷ l) (delivered-append fs gs)
delivered-append (error e ∷ fs) gs = delivered-append fs gs
delivered-append (ping ∷ fs) gs = delivered-append fs gs

-- What a step publishes to a stream that is subscribed.
abbrev pub heard : Act → Phase → List Event
heard (published e) listening = e ∷ []
heard (published e) streaming = e ∷ []
heard (published e) p = []
heard x p = []

-- What a stream tells of its own: how many messages there were to be fetched when it counted, and
-- since when, if there were any.
abbrev pub counted_event : Result Crash (ℕ × Text) → List Event
counted_event (ok (count, oldest_ts)) =
    if eqb count 0 then [] else Event.unread count oldest_ts ∷ []
counted_event (err e) = []

-- Nothing is written before the count; then what was written and what waits is what the stream
-- tells of its own, and behind it what was heard.
abbrev pub IsTold : Phase → Session → List Event → List Event → Type 0
IsTold starting s own pubs = (delivered s.written ≡ []) × (s.queue ≡ pubs) × (own ≡ [])
IsTold registered s own pubs = (delivered s.written ≡ []) × (s.queue ≡ pubs) × (own ≡ [])
IsTold listening s own pubs = (delivered s.written ≡ []) × (s.queue ≡ pubs) × (own ≡ [])
IsTold streaming s own pubs = (length own ≤ 1) × (delivered s.written ++ s.queue ≡ own ++ pubs)
IsTold ended s own pubs = (length own ≤ 1) × (delivered s.written ++ s.queue ≡ own ++ pubs)

told_early :
    (s : Session) (own pubs : List Event)
    → (delivered s.written ≡ []) × (s.queue ≡ pubs) × (own ≡ [])
    → (length own ≤ 1) × (delivered s.written ++ s.queue ≡ own ++ pubs)
told_early s own pubs (w, q, o) = (rw o (omega arith), rw (w, o) q)

-- In every phase what was written and what waits is so.
pub told_anyway :
    (p : Phase) (s : Session) (own pubs : List Event)
    → IsTold p s own pubs
    → (length own ≤ 1) × (delivered s.written ++ s.queue ≡ own ++ pubs)
told_anyway starting s own pubs h = told_early s own pubs h
told_anyway registered s own pubs h = told_early s own pubs h
told_anyway listening s own pubs h = told_early s own pubs h
told_anyway streaming s own pubs h = h
told_anyway ended s own pubs h = h

-- The state tells what it should, in its own phase.
abbrev pub Told : Session → List Event → List Event → Type 0
Told s own pubs = IsTold s.phase s own pubs

pub subscribe-Told :
    (p : Phase) (s : Session) (own pubs : List Event)
    → s.phase ≡ p
    → IsTold p s own pubs
    → Told (on_subscribe p s) own pubs
unfolding on_subscribe
subscribe-Told starting s own pubs e h = rw e h
subscribe-Told registered s own pubs e h = h
subscribe-Told listening s own pubs e h = rw e h
subscribe-Told streaming s own pubs e h = rw e h
subscribe-Told ended s own pubs e h = rw e h

-- one event from the queue
forwarded :
    (q : List Event) (s : Session) (own pubs : List Event)
    → s.phase ≡ streaming
    → s.queue ≡ q
    → IsTold streaming s own pubs
    → Told (forward q s) own pubs
unfolding forward
forwarded [] s own pubs e w h = rw e h
forwarded (x ∷ q) s own pubs e w (few, same) = rw e (
  few,
  ap (λ l. l ++ q) (delivered-append s.written (deliver x ∷ []))
      ∙ append_assoc (delivered s.written) (x ∷ []) q
      ∙ ap (λ l. delivered s.written ++ l) (sym w)
      ∙ same,
)

pub forward-Told :
    (p : Phase) (s : Session) (own pubs : List Event)
    → s.phase ≡ p
    → IsTold p s own pubs
    → Told (on_forward p s) own pubs
unfolding on_forward
forward-Told starting s own pubs e h = rw e h
forward-Told registered s own pubs e h = rw e h
forward-Told listening s own pubs e h = rw e h
forward-Told streaming s own pubs e h = forwarded s.queue s own pubs e refl h
forward-Told ended s own pubs e h = rw e h

pub published-Told :
    (p : Phase) (x : Event) (s : Session) (own pubs : List Event)
    → s.phase ≡ p
    → IsTold p s own pubs
    → Told (on_published p x s) own (pubs ++ heard (published x) p)
unfolding on_published
published-Told starting x s own pubs e h = rw (e, append-nil pubs) h
published-Told registered x s own pubs e h = rw (e, append-nil pubs) h
published-Told listening x s own pubs e (w, q, o) = rw e (w, ap (λ l. l ++ x ∷ []) q, o)
published-Told streaming x s own pubs e (few, same) = rw e (
  few,
  sym (append_assoc (delivered s.written) s.queue (x ∷ []))
      ∙ ap (λ l. l ++ x ∷ []) same
      ∙ append_assoc own pubs (x ∷ []),
)
published-Told ended x s own pubs e h = rw (e, append-nil pubs) h

-- The count is written as the event that it should be.
pub delivered-nudge : (c : ℕ × Text) → delivered (nudge c) ≡ counted_event (ok c)
unfolding nudge
delivered-nudge (n, t) = elim (Bool-cases (eqb n 0)) [ inl q ↦ rw q refl | inr q ↦ rw q refl ]

-- It is at most one.
pub length-counted_event : (r : Result Crash (ℕ × Text)) → length (counted_event r) ≤ 1
length-counted_event (ok (n, t)) = elim (Bool-cases (eqb n 0)) [
  | inl q ↦ rw q (omega arith)
  | inr q ↦ rw q (omega arith)
]
length-counted_event (err e) = omega arith

-- Frames that are no events leave what was told.
pub other_frames :
    (s : Session) (fs : List Frame) (own pubs : List Event)
    → delivered fs ≡ []
    → IsTold streaming s own pubs
    → (length own ≤ 1) × (delivered (s.written ++ fs) ++ s.queue ≡ own ++ pubs)
other_frames s fs own pubs none_new (few, same) = (
  few,
  ap (λ l. l ++ s.queue)
        (delivered-append s.written fs
          ∙ ap (λ l. delivered s.written ++ l) none_new
          ∙ append-nil (delivered s.written))
      ∙ same,
)
