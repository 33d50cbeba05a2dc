-- ===== src/Relay.antt =====
-- `relay` and `_render_deliver` of plugins/muster/mcp/muster_channel.py: what the client makes of the
-- events of its stream. A push that fails is only logged, so that a push is a line of the trace.
pub mod Bounds
pub mod Repeats
use muster_chat.Base.{
  ℕ, ◌*◌, Bool, true, false, List, [], ◌∷◌, ◌++◌, Option, none, some, ℤ, pos, negsuc, suc, Text,
  codes, ◌==◌, contains, decimal, is_empty, min, take, if◌then◌else◌,
}
use muster_chat.Ops.Types.{Value, null, bool, int, text, Args, arg, truthy, is_text}

-- An event as `parse_sse` yields it: its name, and the fields of its body.
pub record StreamEvent : Type 0 where
  pub name : Text
  pub fields : Args

-- a value in a format string
unfoldable pub in_format : Value → Text
in_format null = codes "None"
in_format (bool b) = if b then codes "True" else codes "False"
in_format (int (pos n)) = decimal n
in_format (int (negsuc n)) = b'-' ∷ decimal (suc n)
in_format (text t) = t

-- `ev.get(k, default)` in a format string
unfoldable pub field_or : Text → Text → Args → Text
unfolding in_format
field_or k default [] = default
field_or k default ((j, v) ∷ fs) =
    let rest = field_or k default fs in if j == k then in_format v else rest

-- ` [subject]`, where there is a subject
unfoldable pub bracketed : Value → Text
bracketed v = if truthy v then codes " [" ++ (in_format v ++ codes "]") else []

-- `_render_deliver`
unfoldable pub render_deliver : Args → Option Text
unfolding field_or bracketed
render_deliver ev =
    if is_text (arg (codes "kind") ev) (codes "chat")
    then some (
        if truthy (arg (codes "envelope") ev)
        then in_format (arg (codes "envelope") ev)
        else codes "✉ new muster message — fetch for full")
    else if is_text (arg (codes "kind") ev) (codes "announce")
    then some (
        codes "📢 Announce from "
        ++ (field_or (codes "from") (codes "?") ev
            ++ (bracketed (arg (codes "subject") ev)
                ++ (codes ": " ++ field_or (codes "body") [] ev))))
    else if is_text (arg (codes "kind") ev) (codes "unread")
    then some (
        codes "✉ "
        ++ (in_format (arg (codes "count") ev)
            ++ codes " unread muster message(s) waiting — run fetch to read them"))
    else none

-- a line pushed to the session, and the identifier of its message
pub record Push : Type 0 where
  pub content : Text
  pub msg_id : Text

-- The state of the loop: the keys of `seen`, the newest first, the seconds to wait before the next
-- connection, and what was pushed, the newest first.
pub record Relay : Type 0 where
  pub seen : List Text
  pub backoff : ℕ
  pub pushed : List Push

abbrev pub started : Relay
started = record { seen = []; backoff = 1; pushed = [] }

-- `ev.get("msg_id")`, which the server sends as a text; `[]` where there is none
unfoldable pub event_id : Args → Text
event_id ev = if truthy (arg (codes "msg_id") ev) then in_format (arg (codes "msg_id") ev) else []

-- `if content: await _push(…)`
unfoldable pub push_content : Option Text → Text → Relay → Relay
push_content none mid s = s
push_content (some content) mid s =
    if is_empty content
    then s
    else record s { pushed = record { content = content; msg_id = mid } ∷ s.pushed }

-- `seen[mid] = None`, after which the oldest go until 256 are left
unfoldable pub mark_seen : Text → Relay → Relay
mark_seen mid s = record s { seen = take 256 (mid ∷ s.seen) }

-- what becomes of a `deliver` event
unfoldable pub on_deliver : Args → Relay → Relay
unfolding push_content mark_seen
on_deliver ev s =
    let mid = event_id ev in
    if is_empty mid
    then push_content (render_deliver ev) mid s
    else if contains s.seen mid
    then s
    else push_content (render_deliver ev) mid (mark_seen mid s)

-- the end of a connection, after which `relay` sleeps and connects again
unfoldable pub on_end : Relay → Relay
on_end s = record s { backoff = min (s.backoff * 2) 60 }

-- one round of the loop over the events; an `error` event ends the connection
unfoldable pub on_event : StreamEvent → Relay → Relay
unfolding on_end
on_event ev s =
    let s' = record s { backoff = 1 } in
    if ev.name == codes "error"
    then on_end s'
    else if ev.name == codes "deliver"
    then on_deliver ev.fields s'
    else s'

-- what the loop reads of the events of one connection: the `break` leaves what comes behind an error
unfoldable pub read_of : List StreamEvent → List StreamEvent
read_of [] = []
read_of (ev ∷ evs) =
    let rest = read_of evs in if ev.name == codes "error" then ev ∷ [] else ev ∷ rest

-- What happens to the loop, in order.
pub data Happening : Type 0 where
  arrives : StreamEvent → Happening
  ends : Happening

unfoldable pub happen : Happening → Relay → Relay
happen (arrives ev) s = on_event ev s
happen ends s = on_end s

unfoldable pub relay : List Happening → Relay → Relay
unfolding happen
relay [] s = s
relay (h ∷ hs) s = relay hs (happen h s)
