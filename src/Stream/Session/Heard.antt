-- ===== src/Stream/Session/Heard.antt =====
-- What a stream has written of what was published.
use muster_chat.Base.{
  ℕ, ◌≤◌, ◌≡◌, refl, ap, ◌∙◌, List, [], ◌∷◌, ◌++◌, append_assoc, append-nil, Result, ok, err, Text,
  length,
}
use muster_chat.Valkey.{Valkey, Json}
use muster_chat.Identity.{Address, address_text}
use muster_chat.Auth.{Identity, AuthFailure, refused, bad_body}
use muster_chat.Config.{Config}
use muster_chat.Store.Agents.{Crash}
use muster_chat.Store.Inbox.{unread_count}
use muster_chat.Store.Deliver.{Event}
use muster_chat.Stream.{error, ping, nudge, ping_step}
use muster_chat.Stream.Session.{
  Phase, starting, registered, listening, streaming, ended, Session, Act, registers, subscribes,
  counts, forwards, ticks, ends, published, fresh_session, on_register, on_end, counted, on_count,
  pinged, on_tick, on_disconnect, act, acts,
}
use muster_chat.Stream.Session.Told.{
  delivered, delivered-append, heard, IsTold, told_anyway, Told, subscribe-Told, forward-Told,
  published-Told, counted_event, delivered-nudge, length-counted_event, other_frames,
}

module _ (v : Valkey) (json : Json) (cfg : Config) (addr : Address) (connection_id : Text)
    (meta : json.Meta) where
  open v use {Db}

  register-Told :
      (p : Phase) (now : ℕ) (s : Session) (db : Db) (own pubs : List Event)
      → s.phase ≡ p
      → IsTold p s own pubs
      → Told (on_register v json cfg addr connection_id meta p now (s, db)).0 own pubs
  unfolding on_register
  register-Told starting now s db own pubs e h = h
  register-Told registered now s db own pubs e h = rw e h
  register-Told listening now s db own pubs e h = rw e h
  register-Told streaming now s db own pubs e h = rw e h
  register-Told ended now s db own pubs e h = rw e h

  counted-Told :
      (r : Result Crash (ℕ × Text)) (s : Session) (db : Db) (own pubs : List Event)
      → IsTold listening s own pubs
      → Told (counted v json cfg addr connection_id meta r (s, db)).0 (own ++ counted_event r) pubs
  unfolding counted on_end
  counted-Told (ok c) s db own pubs (w, q, o) = rw o (
    length-counted_event (ok c),
    ap (λ l. l ++ s.queue)
          (delivered-append s.written (nudge c)
            ∙ ap (λ l. l ++ delivered (nudge c)) w
            ∙ delivered-nudge c)
        ∙ ap (λ l. counted_event (ok c) ++ l) q,
  )
  counted-Told (err x) s db own pubs h = rw (append-nil own) (told_anyway listening s own pubs h)

  -- What a step makes the stream tell of its own: the count, where it is due.
  abbrev pub own_event : Act → Phase → Db → List Event
  own_event (counts now) listening db = counted_event (unread_count v now (address_text addr) db)
  own_event (counts now) p db = []
  own_event x p db = []

  count-Told :
      (p : Phase) (now : ℕ) (s : Session) (db : Db) (own pubs : List Event)
      → s.phase ≡ p
      → IsTold p s own pubs
      → Told
          (on_count v json cfg addr connection_id meta p now (s, db)).0
          (own ++ own_event (counts now) p db)
          pubs
  unfolding on_count
  count-Told starting now s db own pubs e h = rw (e, append-nil own) h
  count-Told registered now s db own pubs e h = rw (e, append-nil own) h
  count-Told listening now s db own pubs e h =
      counted-Told (unread_count v now (address_text addr) db) s db own pubs h
  count-Told streaming now s db own pubs e h = rw (e, append-nil own) h
  count-Told ended now s db own pubs e h = rw (e, append-nil own) h

  pinged-Told :
      (now : ℕ) (answer : Result AuthFailure Identity) (s : Session) (db : Db)
      (own pubs : List Event)
      → s.phase ≡ streaming
      → IsTold streaming s own pubs
      → Told
          (pinged v json cfg addr connection_id meta
            (ping_step v json cfg addr now connection_id s.ident meta answer db)
            s).0
          own
          pubs
  unfolding pinged on_end ping_step
  pinged-Told now (err (refused x)) s db own pubs e h =
      other_frames s (error x ∷ []) own pubs refl h
  pinged-Told now (err bad_body) s db own pubs e h = other_frames s [] own pubs refl h
  pinged-Told now (ok ident2) s db own pubs e h = rw e (other_frames s (ping ∷ []) own pubs refl h)

  tick-Told :
      (p : Phase) (now : ℕ) (answer : Result AuthFailure Identity) (s : Session) (db : Db)
      (own pubs : List Event)
      → s.phase ≡ p
      → IsTold p s own pubs
      → Told (on_tick v json cfg addr connection_id meta p now answer (s, db)).0 own pubs
  unfolding on_tick
  tick-Told starting now answer s db own pubs e h = rw e h
  tick-Told registered now answer s db own pubs e h = rw e h
  tick-Told listening now answer s db own pubs e h = rw e h
  tick-Told streaming now answer s db own pubs e h = pinged-Told now answer s db own pubs e h
  tick-Told ended now answer s db own pubs e h = rw e h

  disconnect-Told :
      (p : Phase) (s : Session) (db : Db) (own pubs : List Event)
      → s.phase ≡ p
      → IsTold p s own pubs
      → Told (on_disconnect v json cfg addr connection_id meta p (s, db)).0 own pubs
  unfolding on_disconnect on_end
  disconnect-Told starting s db own pubs e h = told_anyway starting s own pubs h
  disconnect-Told registered s db own pubs e h = told_anyway registered s own pubs h
  disconnect-Told listening s db own pubs e h = told_anyway listening s own pubs h
  disconnect-Told streaming s db own pubs e h = h
  disconnect-Told ended s db own pubs e h = rw e h

  act-Told :
      (x : Act) (s : Session) (db : Db) (own pubs : List Event)
      → Told s own pubs
      → Told
          (act v json cfg addr connection_id meta x (s, db)).0
          (own ++ own_event x s.phase db)
          (pubs ++ heard x s.phase)
  unfolding act
  act-Told (registers now) s db own pubs h =
      rw (append-nil own, append-nil pubs) (register-Told s.phase now s db own pubs refl h)
  act-Told subscribes s db own pubs h =
      rw (append-nil own, append-nil pubs) (subscribe-Told s.phase s own pubs refl h)
  act-Told (counts now) s db own pubs h =
      rw (append-nil pubs) (count-Told s.phase now s db own pubs refl h)
  act-Told forwards s db own pubs h =
      rw (append-nil own, append-nil pubs) (forward-Told s.phase s own pubs refl h)
  act-Told (ticks now answer) s db own pubs h =
      rw (append-nil own, append-nil pubs) (tick-Told s.phase now answer s db own pubs refl h)
  act-Told ends s db own pubs h =
      rw (append-nil own, append-nil pubs) (disconnect-Told s.phase s db own pubs refl h)
  act-Told (published e) s db own pubs h =
      rw (append-nil own) (published-Told s.phase e s own pubs refl h)

  -- all that is published to a stream while it is subscribed, over its steps
  abbrev pub heard_in : List Act → Session × Db → List Event
  heard_in [] s = []
  heard_in (x ∷ xs) s =
      heard x s.0.phase ++ heard_in xs (act v json cfg addr connection_id meta x s)

  -- all that a stream tells of its own, over its steps
  abbrev pub own_in : List Act → Session × Db → List Event
  own_in [] s = []
  own_in (x ∷ xs) s =
      own_event x s.0.phase s.1 ++ own_in xs (act v json cfg addr connection_id meta x s)

  acts-Told :
      (xs : List Act) (s : Session × Db) (own pubs : List Event)
      → Told s.0 own pubs
      → Told
          (acts v json cfg addr connection_id meta xs s).0
          (own ++ own_in xs s)
          (pubs ++ heard_in xs s)
  unfolding acts
  acts-Told [] s own pubs h = rw (append-nil own, append-nil pubs) h
  acts-Told (x ∷ xs) (s, db) own pubs h =
      let next = act v json cfg addr connection_id meta x (s, db) in
      rw
        (
          ← append_assoc own (own_event x s.phase db) (own_in xs next),
          ← append_assoc pubs (heard x s.phase) (heard_in xs next),
        )
        (acts-Told xs next (own ++ own_event x s.phase db) (pubs ++ heard x s.phase)
          (act-Told x s db own pubs h))

  -- Whatever the steps of a stream, however they come, and whatever is published to it: the events
  -- that it has written, and behind them those that wait, are at most one event of its own, which
  -- tells how many messages there were to be fetched when it counted and since when, if there were
  -- any, and behind it all that was published while it was subscribed, each once and in order.
  pub acts-delivered :
      (xs : List Act) (ident : Identity) (db : Db)
      → let s = (acts v json cfg addr connection_id meta xs (fresh_session ident, db)).0 in
        (length (own_in xs (fresh_session ident, db)) ≤ 1)
        × (delivered s.written ++ s.queue
            ≡ own_in xs (fresh_session ident, db) ++ heard_in xs (fresh_session ident, db))
  acts-delivered xs ident db =
      told_anyway _ (acts v json cfg addr connection_id meta xs (fresh_session ident, db)).0 _ _
        (acts-Told xs (fresh_session ident, db) [] [] (refl, refl, refl))
