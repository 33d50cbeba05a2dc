-- ===== src/Wire/Pushed.antt =====
-- What a stream writes is what its client is told.
use muster_chat.Base.{
  ◌≡◌, ◌≢◌, refl, sym, ap, ◌∙◌, ℕ, zero, suc, Bool, false, List, [], ◌∷◌, ◌++◌, append_assoc,
  append-nil, Option, some, Text, codes, ◌==◌, decimal, is_empty, is_empty_of_ne, contains, take,
  All, map, arith, if◌then◌else◌, ==_of_ne, ne_of_==,
}
use muster_chat.Auth.{AuthError}
use muster_chat.Ops.Types.{Args, arg, truthy, is_text}
use muster_chat.Store.Deliver.{Event}
use muster_chat.Stream.{Frame, deliver, error, ping}
use muster_chat.Stream.Session.Told.{delivered}
use muster_chat.Stream.Session.Broken.{EndsAtError}
use muster_chat.Sse.Lines.{IsPlainText, parse_sse-splitlines}
use muster_chat.Sse.RoundTrip.{IsSendable, received, parse_sse-written}
use muster_chat.Relay.{
  StreamEvent, on_end, read_of, Push, Relay, started, Happening, arrives, event_id, push_content,
  mark_seen, on_deliver, on_event, happen, relay, render_deliver, field_or, bracketed, in_format,
}
use muster_chat.Relay.Repeats.{Distinct}
use muster_chat.Wire.{event_args, stream_event, event_json, frame_sent, stream_text, stream}

-- The line of an event.
abbrev pub line_of : Event → Text
line_of (Event.chat msg_id from envelope important) = envelope
line_of (Event.announce from subject body) =
    codes "📢 Announce from "
    ++ (from
        ++ ((if is_empty subject then [] else codes " [" ++ (subject ++ codes "]"))
            ++ (codes ": " ++ body)))
line_of (Event.unread count oldest_ts) =
    codes "✉ "
    ++ (decimal count ++ codes " unread muster message(s) waiting — run fetch to read them")

-- The identifiers of the chats among events.
abbrev pub chat_ids : List Event → List Text
chat_ids [] = []
chat_ids (Event.chat msg_id from envelope important ∷ es) = msg_id ∷ chat_ids es
chat_ids (Event.announce from subject body ∷ es) = chat_ids es
chat_ids (Event.unread count oldest_ts ∷ es) = chat_ids es

-- A chat has an identifier and an envelope.
abbrev pub IsWhole : Event → Type 0
IsWhole (Event.chat msg_id from envelope important) = (msg_id ≢ []) × (envelope ≢ [])
IsWhole (Event.announce from subject body) = Unit
IsWhole (Event.unread count oldest_ts) = Unit

-- The lines that were pushed, in order.
abbrev pub lines : List Push → List Text
lines [] = []
lines (p ∷ ps) = lines ps ++ p.content ∷ []

render-event_args : (e : Event) → IsWhole e → render_deliver (event_args e) ≡ some (line_of e)
unfolding render_deliver event_args field_or bracketed in_format arg truthy is_text ◌==◌
render-event_args (Event.chat msg_id from [] important) (_, ne) = absurd (ne refl)
render-event_args (Event.chat msg_id from (c ∷ t) important) h = refl
render-event_args (Event.announce from [] body) h = refl
render-event_args (Event.announce from (c ∷ t) body) h = refl
render-event_args (Event.unread count oldest_ts) h = refl

event_id-chat :
    (msg_id from envelope : Text) (important : Bool)
    → event_id (event_args (Event.chat msg_id from envelope important)) ≡ msg_id
unfolding event_id event_args arg truthy in_format ◌==◌
event_id-chat [] from envelope important = refl
event_id-chat (c ∷ t) from envelope important = refl

-- None of the identifiers was seen.
abbrev AreNew : List Text → List Text → Type 0
AreNew seen is = All (λ i. contains seen i ≡ false) is

contains-take :
    (n : ℕ) (xs : List Text) (i : Text) → contains xs i ≡ false → contains (take n xs) i ≡ false
contains-take zero xs i h = refl
contains-take (suc n) [] i h = refl
contains-take (suc n) (x ∷ xs) i h = ground (arith, contains-take n xs i)

still_new :
    (mid : Text) (seen is : List Text)
    → contains is mid ≡ false
    → AreNew seen is
    → AreNew (take 256 (mid ∷ seen)) is
still_new mid seen [] h k = tt
still_new mid seen (i ∷ is) h (k, ks) =
    let other : (i == mid) ≡ false = ground arith in
    let rest : contains is mid ≡ false = ground arith in
    (
      contains-take 256 (mid ∷ seen) i (rw (==_of_ne mid i (λ e. ne_of_== i mid other (sym e))) k),
      still_new mid seen is rest ks,
    )

-- What an event does to the loop.
on_deliver-chat :
    (msg_id from envelope : Text) (important : Bool) (s : Relay)
    → msg_id ≢ []
    → envelope ≢ []
    → contains s.seen msg_id ≡ false
    → on_deliver (event_args (Event.chat msg_id from envelope important)) s ≡ record s {
      seen = take 256 (msg_id ∷ s.seen);
      pushed = record { content = envelope; msg_id = msg_id } ∷ s.pushed;
    }
unfolding on_deliver push_content mark_seen
on_deliver-chat msg_id from envelope important s named ne new = rw (
  event_id-chat msg_id from envelope important,
  is_empty_of_ne msg_id named,
  new,
  render-event_args (Event.chat msg_id from envelope important) (named, ne),
  is_empty_of_ne envelope ne,
)

on_deliver-plain :
    (e : Event) (c : ℕ) (t : Text) (s : Relay)
    → event_id (event_args e) ≡ []
    → render_deliver (event_args e) ≡ some (c ∷ t)
    → on_deliver (event_args e) s
      ≡ record s { pushed = record { content = c ∷ t; msg_id = [] } ∷ s.pushed }
unfolding on_deliver push_content
on_deliver-plain e c t s i r = rw (i, r)

announce_id :
    (from subject body : Text) → event_id (event_args (Event.announce from subject body)) ≡ []
unfolding event_id event_args arg truthy ◌==◌
announce_id from subject body = refl

unread_id :
    (count : ℕ) (oldest_ts : Text) → event_id (event_args (Event.unread count oldest_ts)) ≡ []
unfolding event_id event_args arg truthy ◌==◌
unread_id count oldest_ts = refl

all_new : (is : List Text) → AreNew [] is
all_new [] = tt
all_new (i ∷ is) = (refl, all_new is)

-- After an event: its line was pushed, and the chats to come are as new as before.
abbrev Told : Event → List Event → Relay → Relay → Type 0
Told e es s s' = (lines s'.pushed ≡ lines s.pushed ++ line_of e ∷ []) × AreNew s'.seen (chat_ids es)

on_deliver-Told :
    (e : Event) (es : List Event) (s : Relay)
    → IsWhole e
    → AreNew s.seen (chat_ids (e ∷ es))
    → Distinct (chat_ids (e ∷ es))
    → Told e es s (on_deliver (event_args e) s) × Distinct (chat_ids es)
on_deliver-Told (Event.chat msg_id from envelope important) es s (named, ne) (new, news) (once, d) =
    rw (on_deliver-chat msg_id from envelope important s named ne new)
      ((refl, still_new msg_id s.seen (chat_ids es) once news), d)
on_deliver-Told (Event.announce from subject body) es s h news d =
    rw
      (on_deliver-plain (Event.announce from subject body) _ _ s (announce_id from subject body)
        (render-event_args (Event.announce from subject body) h))
      ((refl, news), d)
on_deliver-Told (Event.unread count oldest_ts) es s h news d =
    rw
      (on_deliver-plain (Event.unread count oldest_ts) _ _ s (unread_id count oldest_ts)
        (render-event_args (Event.unread count oldest_ts) h))
      ((refl, news), d)

module _ (dumps : Args → Text) (loads : Text → Option Args) (prose : AuthError → Text) where
  -- the event that comes of a frame
  abbrev came : Frame → StreamEvent
  came f = stream_event (received (event_json dumps loads) (frame_sent prose f))

  -- what the client makes of a frame
  abbrev told : Frame → Happening
  told f = arrives (came f)

  relay-told :
      (fs : List Frame) (s : Relay)
      → All IsWhole (delivered fs)
      → AreNew s.seen (chat_ids (delivered fs))
      → Distinct (chat_ids (delivered fs))
      → lines (relay (map told fs) s).pushed ≡ lines s.pushed ++ map line_of (delivered fs)
  unfolding relay happen on_event on_end frame_sent stream_event ◌==◌
  relay-told [] s w n d = sym (append-nil (lines s.pushed))
  relay-told (deliver e ∷ fs) s (w, ws) n d =
      let ((line, news), once) =
        on_deliver-Told e (delivered fs) (record s { backoff = 1 }) w n d in
      relay-told fs (on_deliver (event_args e) (record s { backoff = 1 })) ws news once
      ∙ ap (λ l. l ++ map line_of (delivered fs)) line
      ∙ append_assoc (lines s.pushed) (line_of e ∷ []) (map line_of (delivered fs))
  relay-told (error e ∷ fs) s w n d = relay-told fs (record s { backoff = 2 }) w n d
  relay-told (ping ∷ fs) s w n d = relay-told fs (record s { backoff = 1 }) w n d

  -- Nothing is left where nothing stands behind an error.
  read_each : (fs : List Frame) → EndsAtError fs → read_of (map came fs) ≡ map came fs
  unfolding read_of frame_sent stream_event ◌==◌
  read_each [] h = refl
  read_each (deliver e ∷ fs) h = ap (λ evs. came (deliver e) ∷ evs) (read_each fs h)
  read_each (error e ∷ fs) h = rw h refl
  read_each (ping ∷ fs) h = ap (λ evs. came ping ∷ evs) (read_each fs h)

  came_each :
      (fs : List Frame)
      → map stream_event (map (received (event_json dumps loads)) (map (frame_sent prose) fs))
        ≡ map came fs
  came_each [] = refl
  came_each (f ∷ fs) = ap (λ evs. came f ∷ evs) (came_each fs)

  told_each : (fs : List Frame) → map arrives (map came fs) ≡ map told fs
  told_each [] = refl
  told_each (f ∷ fs) = ap (λ hs. told f ∷ hs) (told_each fs)

  All-IsSendable :
      (fs : List Frame)
      → All (λ f. IsSendable (event_json dumps loads) (frame_sent prose f)) fs
      → All (IsSendable (event_json dumps loads)) (map (frame_sent prose) fs)
  All-IsSendable [] h = tt
  All-IsSendable (f ∷ fs) (h, hs) = (h, All-IsSendable fs hs)

  frames_read :
      (fs : List Frame)
      → All (λ f. IsSendable (event_json dumps loads) (frame_sent prose f)) fs
      → IsPlainText (stream_text dumps loads prose fs)
      → EndsAtError fs
      → map arrives (read_of (stream dumps loads (stream_text dumps loads prose fs))) ≡ map told fs
  unfolding stream stream_text
  frames_read fs h plain last =
      ap (λ es. map arrives (read_of (map stream_event es)))
        (parse_sse-splitlines (event_json dumps loads) (map (frame_sent prose) fs) plain
          ∙ parse_sse-written (event_json dumps loads) (map (frame_sent prose) fs)
              (All-IsSendable fs h))
      ∙ ap (λ evs. map arrives (read_of evs)) (came_each fs)
      ∙ ap (map arrives) (read_each fs last)
      ∙ told_each fs

  -- Where JSON is read back and breaks no line, nothing stands behind an error, and the chats among what a stream has
  -- delivered have an envelope and identifiers of their own, the client pushes to its session one
  -- line for each event, in order.
  pub pushed_lem :
      (fs : List Frame)
      → All (λ f. IsSendable (event_json dumps loads) (frame_sent prose f)) fs
      → IsPlainText (stream_text dumps loads prose fs)
      → EndsAtError fs
      → All IsWhole (delivered fs)
      → Distinct (chat_ids (delivered fs))
      → lines
          (relay
            (map arrives (read_of (stream dumps loads (stream_text dumps loads prose fs))))
            started).pushed
        ≡ map line_of (delivered fs)
  pushed_lem fs h plain last w d =
      rw (frames_read fs h plain last)
        (relay-told fs started w (all_new (chat_ids (delivered fs))) d)
