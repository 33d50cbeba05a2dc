-- ===== src/Store/Deliver.antt =====
-- `publish_deliver`: the events that a recipient's stream is sent. Publishing keeps nothing in
-- Valkey, so the messages that were published stand beside the database, in order.
use muster_chat.Base.{ℕ, Bool, List, [], ◌∷◌, ◌++◌, Text}
use muster_chat.Valkey.{Valkey}
use muster_chat.Store.Keys.{notify_channel}

pub data Event : Type 0 where
  chat : (msg_id from envelope : Text) (important : Bool) → Event
  announce : (from subject body : Text) → Event
  unread : (count : ℕ) (oldest_ts : Text) → Event

pub record Published : Type 0 where
  pub channel : Text
  pub event : Event

pub record World (v : Valkey) : Type 0 where
  pub db : v.Db
  pub sent : List Published

unfoldable pub publish_deliver : {v : Valkey} → Text → Event → World v → World v
publish_deliver to event w = record w {
  sent = w.sent ++ record { channel = notify_channel to; event = event } ∷ [];
}
