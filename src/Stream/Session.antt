-- ===== src/Stream/Session.antt =====
-- `gen` of server/muster_api/stream.py step by step: a stream registers its agent, subscribes to the
-- events of the agent, counts what is to be fetched, and then forwards and pings, until it ends. What
-- is published while it is subscribed waits in a queue; what is published before is not heard.
pub mod Told
pub mod Broken
pub mod Heard
use muster_chat.Base.{ℕ, List, [], ◌∷◌, ◌++◌, Option, none, some, Result, ok, err, Text}
use muster_chat.Valkey.{Valkey, Json}
use muster_chat.Identity.{Address, address_text}
use muster_chat.Auth.{Identity, AuthFailure}
use muster_chat.Config.{Config}
use muster_chat.Store.Agents.{Crash, register_agent}
use muster_chat.Store.Presence.{touch_presence}
use muster_chat.Store.Inbox.{unread_count}
use muster_chat.Store.Deliver.{Event}
use muster_chat.Stream.{Frame, deliver, nudge, ping_step, close_stream}

-- How far `gen` has come.
pub data Phase : Type 0 where
  starting registered listening streaming ended : Phase

pub record Session : Type 0 where
  pub phase : Phase
  pub ident : Identity
  pub queue : List Event
  pub written : List Frame

-- The steps of a stream, and what others publish to its channel.
pub data Act : Type 0 where
  registers : (now : ℕ) → Act
  subscribes : Act
  counts : (now : ℕ) → Act
  forwards : Act
  ticks : (now : ℕ) (answer : Result AuthFailure Identity) → Act
  ends : Act
  published : Event → Act

abbrev pub fresh_session : Identity → Session
fresh_session ident = record { phase = starting; ident = ident; queue = []; written = [] }

-- `pubsub.subscribe`
unfoldable pub on_subscribe : Phase → Session → Session
on_subscribe registered s = record s { phase = listening }
on_subscribe p s = s

-- `pubsub.get_message`, whose data is written verbatim
unfoldable pub forward : List Event → Session → Session
forward [] s = s
forward (e ∷ es) s = record s { queue = es; written = s.written ++ deliver e ∷ [] }

unfoldable pub on_forward : Phase → Session → Session
unfolding forward
on_forward streaming s = forward s.queue s
on_forward p s = s

-- a message that is published to the channel
unfoldable pub on_published : Phase → Event → Session → Session
on_published listening e s = record s { queue = s.queue ++ e ∷ [] }
on_published streaming e s = record s { queue = s.queue ++ e ∷ [] }
on_published p e s = s

module _ (v : Valkey) (json : Json) (cfg : Config) (addr : Address) (connection_id : Text)
    (meta : json.Meta) where
  open v use {Db}

  -- the registration
  unfoldable pub on_register : Phase → ℕ → Session × Db → Session × Db
  on_register starting now (s, db) = (
    record s { phase = registered },
    touch_presence v now (address_text addr) connection_id cfg.presence_ttl
        (register_agent v json now addr s.ident.groups meta cfg.agent_retention db),
  )
  on_register p now s = s

  -- the end, with its cleanup
  unfoldable pub on_end : Session × Db → Session × Db
  on_end (s, db) = (record s { phase = ended }, close_stream v json cfg addr connection_id db)

  -- the coalesced event of what is to be fetched
  unfoldable pub counted : Result Crash (ℕ × Text) → Session × Db → Session × Db
  unfolding on_end
  counted (ok c) (s, db) = (record s { phase = streaming; written = s.written ++ nudge c }, db)
  counted (err e) s = on_end s

  unfoldable pub on_count : Phase → ℕ → Session × Db → Session × Db
  unfolding counted
  on_count listening now (s, db) = counted (unread_count v now (address_text addr) db) (s, db)
  on_count p now s = s

  -- what is made of a ping
  unfoldable pub pinged : (List Frame × Option Identity) × Db → Session → Session × Db
  unfolding on_end
  pinged ((frames, none), db) s = on_end (record s { written = s.written ++ frames }, db)
  pinged ((frames, some ident), db) s =
      (record s { written = s.written ++ frames; ident = ident }, db)

  unfoldable pub on_tick : Phase → ℕ → Result AuthFailure Identity → Session × Db → Session × Db
  unfolding pinged
  on_tick streaming now answer (s, db) =
      pinged (ping_step v json cfg addr now connection_id s.ident meta answer db) s
  on_tick p now answer s = s

  -- a disconnect: the cleanup belongs to a `try` that is entered behind the subscription
  unfoldable pub on_disconnect : Phase → Session × Db → Session × Db
  unfolding on_end
  on_disconnect starting (s, db) = (record s { phase = ended }, db)
  on_disconnect registered (s, db) = (record s { phase = ended }, db)
  on_disconnect listening s = on_end s
  on_disconnect streaming s = on_end s
  on_disconnect ended s = s

  -- one step; a step that is not due changes nothing
  unfoldable pub act : Act → Session × Db → Session × Db
  unfolding on_register on_subscribe on_count on_forward on_tick on_published on_disconnect
  act (registers now) (s, db) = on_register s.phase now (s, db)
  act subscribes (s, db) = (on_subscribe s.phase s, db)
  act (counts now) (s, db) = on_count s.phase now (s, db)
  act forwards (s, db) = (on_forward s.phase s, db)
  act (ticks now answer) (s, db) = on_tick s.phase now answer (s, db)
  act ends (s, db) = on_disconnect s.phase (s, db)
  act (published e) (s, db) = (on_published s.phase e s, db)

  unfoldable pub acts : List Act → Session × Db → Session × Db
  unfolding act
  acts [] s = s
  acts (x ∷ xs) s = acts xs (act x s)
