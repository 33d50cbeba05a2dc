-- ===== src/Wire.antt =====
-- From the stream of the server to the loop of the client: the dictionaries of the events that
-- server/muster_api/ops.py and server/muster_api/stream.py send, and what
-- plugins/muster/mcp/httpbus.py makes of the text. The JSON of a dictionary and the prose of an error
-- are parameters.
pub mod Pushed
pub mod Heard
use muster_chat.Base.{ℕ, Bool, List, [], ◌∷◌, Option, none, some, pos, Text, codes, map, splitlines}
use muster_chat.Auth.{AuthError}
use muster_chat.Bus.Answers.{auth_code}
use muster_chat.Store.Deliver.{Event}
use muster_chat.Stream.{Frame, deliver, error, ping}
use muster_chat.Ops.Types.{Args, int, text, bool}
use muster_chat.Sse.{EventJson, Sent, event, comment, Parsed, named, parse_sse, written}
use muster_chat.Relay.{StreamEvent}

-- The dictionaries of the events: of a chat,
abbrev chat_event : (msg_id from envelope : Text) (important : Bool) → Args
chat_event msg_id from envelope important =
    (codes "event", text (codes "deliver"))
    ∷ (codes "kind", text (codes "chat"))
    ∷ (codes "msg_id", text msg_id)
    ∷ (codes "from", text from)
    ∷ (codes "envelope", text envelope)
    ∷ (codes "important", bool important)
    ∷ []

-- of an announcement,
abbrev announce_event : (from subject body : Text) → Args
announce_event from subject body =
    (codes "event", text (codes "deliver"))
    ∷ (codes "kind", text (codes "announce"))
    ∷ (codes "from", text from)
    ∷ (codes "subject", text subject)
    ∷ (codes "body", text body)
    ∷ []

-- and of the count of what is to be fetched.
abbrev unread_event : (count : ℕ) (oldest_ts : Text) → Args
unread_event count oldest_ts =
    (codes "event", text (codes "deliver"))
    ∷ (codes "kind", text (codes "unread"))
    ∷ (codes "count", int (pos count))
    ∷ (codes "oldest_ts", text oldest_ts)
    ∷ []

unfoldable pub event_args : Event → Args
event_args (Event.chat msg_id from envelope important) = chat_event msg_id from envelope important
event_args (Event.announce from subject body) = announce_event from subject body
event_args (Event.unread count oldest_ts) = unread_event count oldest_ts

-- an event as `parse_sse` yields it, with its fields beside its name
unfoldable pub stream_event : Parsed Args → StreamEvent
stream_event (named name (some d)) = record { name = name; fields = d }
stream_event (named name none) = record { name = name; fields = [] }
stream_event Parsed.ping = record { name = codes "_ping"; fields = [] }

module _ (prose : AuthError → Text) where
  -- what `gen` yields for a frame
  unfoldable pub frame_sent : Frame → Sent Args
  unfolding event_args
  frame_sent (deliver e) = event (codes "deliver") (event_args e)
  frame_sent (error e) =
      event (codes "error")
        ((codes "code", text (auth_code e)) ∷ (codes "message", text (prose e)) ∷ [])
  frame_sent ping = comment

module _ (dumps : Args → Text) (loads : Text → Option Args) where
  abbrev pub event_json : EventJson
  event_json = record { Data = Args; dumps = dumps; loads = loads }

  -- the body of the response
  unfoldable pub stream_text : (AuthError → Text) → List Frame → Text
  stream_text prose fs = written event_json (map (frame_sent prose) fs)

  -- `MusterClient.stream`, of the body that comes, whose lines are those of `splitlines`
  unfoldable pub stream : Text → List StreamEvent
  unfolding stream_event
  stream body = map stream_event (parse_sse event_json (splitlines body))
