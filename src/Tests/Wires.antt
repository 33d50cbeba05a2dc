-- ===== src/Tests/Wires.antt =====
-- What an agent is told of two messages, over a JSON of their two dictionaries.
use muster_chat.Base.{
  ◌≡◌, refl, ◌≤◌, length, map, ◌++◌, false, List, [], ◌∷◌, Option, some, Text, codes, ◌==◌, strip,
  arith, if◌then◌else◌,
}
use muster_chat.Valkey.Memory.{memory, plain_json, nothing}
use muster_chat.Auth.{AuthError}
use muster_chat.Ops.Types.{Args, arg, is_text}
use muster_chat.Store.Deliver.{Event}
use muster_chat.Stream.{Frame, deliver, nudge}
use muster_chat.Stream.Session.{
  acts, counted, on_count, on_end, on_forward, forward, on_published, on_disconnect,
}
use muster_chat.Store.Inbox.{unread_count, live_entries, entries_past_cursor}
use muster_chat.Store.Presence.{touch_presence}
use muster_chat.Store.Agents.{register_agent}
use muster_chat.Store.Keys.{agents_key, agent_key, presence_key, inbox_key, cursor_key}
use muster_chat.Identity.{address_text}
use muster_chat.Sse.RoundTrip.{IsName, IsWritable}
use muster_chat.Wire.{event_args, event_json, frame_sent, stream_text}
use muster_chat.Sse.{written, sse}
use muster_chat.Wire.Pushed.{line_of}
use muster_chat.Wire.Heard.{pushed_of, IsPlain, acts-pushed}
use muster_chat.Tests.Samples.{settings, ann, desk}
use muster_chat.Tests.Streams.{told_twice, told_events, own_events, after_two}

abbrev one : Event
one = Event.chat (codes "1-0") (codes "bob") (codes "one") false

abbrev two : Event
two = Event.chat (codes "2-0") (codes "bob") (codes "two") false

abbrev brief : Args → Text
brief d = if is_text (arg (codes "msg_id") d) (codes "1-0") then codes "1" else codes "2"

abbrev unbrief : Text → Option Args
unbrief t = if t == codes "1" then some (event_args one) else some (event_args two)

abbrev silent : AuthError → Text
silent e = []

abbrev two_frames : List Frame
two_frames = deliver one ∷ deliver two ∷ []

deliver-IsName : IsName (codes "deliver")
unfolding strip
deliver-IsName = (
  (λ e. ground arith),
  (
    (λ e. ground arith),
    (
      (λ e. ground arith),
      (
        (λ e. ground arith),
        (
          (λ e. ground arith),
          ((λ e. ground arith), ((λ e. ground arith), ((λ e. ground arith), tt))),
        ),
      ),
    ),
  ),
  refl,
)

one-IsWritable : IsWritable (event_json brief unbrief) (event_args one)
unfolding event_args arg is_text strip ◌==◌
one-IsWritable = record { read_back = refl; one_line = ((λ e. ground arith), tt); no_ends = refl }

two-IsWritable : IsWritable (event_json brief unbrief) (event_args two)
unfolding event_args arg is_text strip ◌==◌
two-IsWritable = record { read_back = refl; one_line = ((λ e. ground arith), tt); no_ends = refl }

frames-IsPlain : IsPlain brief unbrief silent two_frames
unfolding frame_sent ◌==◌
frames-IsPlain = record {
  sendable = ((deliver-IsName, one-IsWritable), ((deliver-IsName, two-IsWritable), tt));
  unbroken = unfold stream_text written sse event_args arg is_text ◌==◌ in refl;
  whole = (
    ((λ e. ground arith), (λ e. ground arith)),
    (((λ e. ground arith), (λ e. ground arith)), tt),
  );
  apart = (refl, (refl, tt));
}

written_two : after_two.written ≡ two_frames
unfolding acts counted on_count on_end on_forward forward on_published on_disconnect unread_count
    live_entries entries_past_cursor nudge touch_presence register_agent agents_key agent_key
    presence_key inbox_key cursor_key address_text ◌==◌
written_two = refl

after-IsPlain : IsPlain brief unbrief silent after_two.written
after-IsPlain = rw written_two frames-IsPlain

acts-pushed_example :
    (length own_events ≤ 1)
    × (pushed_of brief unbrief silent after_two.written ++ map line_of after_two.queue
        ≡ map line_of (own_events ++ told_events))
acts-pushed_example =
    acts-pushed brief unbrief silent memory plain_json settings desk (codes "c1") [] told_twice ann
      nothing after-IsPlain
