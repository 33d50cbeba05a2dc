-- ===== src/Stream/Session/Broken.antt =====
-- An error is the last that a stream writes.
use muster_chat.Base.{
  ◌≡◌, refl, List, [], ◌∷◌, ◌++◌, ℕ, Bool-cases, inl, inr, eqb, Result, ok, err, Text,
}
use muster_chat.Valkey.{Valkey, Json}
use muster_chat.Identity.{Address, address_text}
use muster_chat.Auth.{Identity, AuthFailure, refused, bad_body}
use muster_chat.Config.{Config}
use muster_chat.Store.Agents.{Crash}
use muster_chat.Store.Inbox.{unread_count}
use muster_chat.Store.Deliver.{Event}
use muster_chat.Stream.{Frame, deliver, error, ping, nudge, ping_step}
use muster_chat.Stream.Session.{
  Phase, starting, registered, listening, streaming, ended, Session, Act, registers, subscribes,
  counts, forwards, ticks, ends, published, fresh_session, on_register, on_subscribe, forward,
  on_forward, on_published, on_end, counted, on_count, pinged, on_tick, on_disconnect, act, acts,
}

-- No frame is an error.
abbrev NoError : List Frame → Type 0
NoError [] = Unit
NoError (deliver e ∷ fs) = NoError fs
NoError (error e ∷ fs) = ⊥
NoError (ping ∷ fs) = NoError fs

-- Nothing stands behind an error.
abbrev pub EndsAtError : List Frame → Type 0
EndsAtError [] = Unit
EndsAtError (deliver e ∷ fs) = EndsAtError fs
EndsAtError (error e ∷ fs) = fs ≡ []
EndsAtError (ping ∷ fs) = EndsAtError fs

NoError-append : (fs gs : List Frame) → NoError fs → NoError gs → NoError (fs ++ gs)
NoError-append [] gs h k = k
NoError-append (deliver e ∷ fs) gs h k = NoError-append fs gs h k
NoError-append (error e ∷ fs) gs h k = absurd h
NoError-append (ping ∷ fs) gs h k = NoError-append fs gs h k

EndsAtError-append : (fs gs : List Frame) → NoError fs → EndsAtError gs → EndsAtError (fs ++ gs)
EndsAtError-append [] gs h k = k
EndsAtError-append (deliver e ∷ fs) gs h k = EndsAtError-append fs gs h k
EndsAtError-append (error e ∷ fs) gs h k = absurd h
EndsAtError-append (ping ∷ fs) gs h k = EndsAtError-append fs gs h k

NoError-EndsAtError : (fs : List Frame) → NoError fs → EndsAtError fs
NoError-EndsAtError [] h = tt
NoError-EndsAtError (deliver e ∷ fs) h = NoError-EndsAtError fs h
NoError-EndsAtError (error e ∷ fs) h = absurd h
NoError-EndsAtError (ping ∷ fs) h = NoError-EndsAtError fs h

-- Until a stream has ended it has written no error.
abbrev IsOpen : Phase → Session → Type 0
IsOpen starting s = NoError s.written
IsOpen registered s = NoError s.written
IsOpen listening s = NoError s.written
IsOpen streaming s = NoError s.written
IsOpen ended s = EndsAtError s.written

abbrev Open : Session → Type 0
Open s = IsOpen s.phase s

ended_anyway : (p : Phase) (s : Session) → IsOpen p s → EndsAtError s.written
ended_anyway starting s h = NoError-EndsAtError s.written h
ended_anyway registered s h = NoError-EndsAtError s.written h
ended_anyway listening s h = NoError-EndsAtError s.written h
ended_anyway streaming s h = NoError-EndsAtError s.written h
ended_anyway ended s h = h

subscribe-Open : (p : Phase) (s : Session) → s.phase ≡ p → IsOpen p s → Open (on_subscribe p s)
unfolding on_subscribe
subscribe-Open starting s e h = rw e h
subscribe-Open registered s e h = h
subscribe-Open listening s e h = rw e h
subscribe-Open streaming s e h = rw e h
subscribe-Open ended s e h = rw e h

forwarded :
    (q : List Event) (s : Session) → s.phase ≡ streaming → NoError s.written → Open (forward q s)
unfolding forward
forwarded [] s e h = rw e h
forwarded (x ∷ q) s e h = rw e (NoError-append s.written (deliver x ∷ []) h tt)

forward-Open : (p : Phase) (s : Session) → s.phase ≡ p → IsOpen p s → Open (on_forward p s)
unfolding on_forward
forward-Open starting s e h = rw e h
forward-Open registered s e h = rw e h
forward-Open listening s e h = rw e h
forward-Open streaming s e h = forwarded s.queue s e h
forward-Open ended s e h = rw e h

published-Open :
    (p : Phase) (x : Event) (s : Session) → s.phase ≡ p → IsOpen p s → Open (on_published p x s)
unfolding on_published
published-Open starting x s e h = rw e h
published-Open registered x s e h = rw e h
published-Open listening x s e h = rw e h
published-Open streaming x s e h = rw e h
published-Open ended x s e h = rw e h

NoError-nudge : (c : ℕ × Text) → NoError (nudge c)
unfolding nudge
NoError-nudge (n, t) = elim (Bool-cases (eqb n 0)) [ inl q ↦ rw q tt | inr q ↦ rw q tt ]

module _ (v : Valkey) (json : Json) (cfg : Config) (addr : Address) (connection_id : Text)
    (meta : json.Meta) where
  open v use {Db}

  register-Open :
      (p : Phase) (now : ℕ) (s : Session) (db : Db)
      → s.phase ≡ p
      → IsOpen p s
      → Open (on_register v json cfg addr connection_id meta p now (s, db)).0
  unfolding on_register
  register-Open starting now s db e h = h
  register-Open registered now s db e h = rw e h
  register-Open listening now s db e h = rw e h
  register-Open streaming now s db e h = rw e h
  register-Open ended now s db e h = rw e h

  counted-Open :
      (r : Result Crash (ℕ × Text)) (s : Session) (db : Db)
      → NoError s.written
      → Open (counted v json cfg addr connection_id meta r (s, db)).0
  unfolding counted on_end
  counted-Open (ok c) s db h = NoError-append s.written (nudge c) h (NoError-nudge c)
  counted-Open (err x) s db h = NoError-EndsAtError s.written h

  count-Open :
      (p : Phase) (now : ℕ) (s : Session) (db : Db)
      → s.phase ≡ p
      → IsOpen p s
      → Open (on_count v json cfg addr connection_id meta p now (s, db)).0
  unfolding on_count
  count-Open starting now s db e h = rw e h
  count-Open registered now s db e h = rw e h
  count-Open listening now s db e h =
      counted-Open (unread_count v now (address_text addr) db) s db h
  count-Open streaming now s db e h = rw e h
  count-Open ended now s db e h = rw e h

  pinged-Open :
      (now : ℕ) (answer : Result AuthFailure Identity) (s : Session) (db : Db)
      → s.phase ≡ streaming
      → NoError s.written
      → Open
          (pinged v json cfg addr connection_id meta
            (ping_step v json cfg addr now connection_id s.ident meta answer db)
            s).0
  unfolding pinged on_end ping_step
  pinged-Open now (err (refused x)) s db e h = EndsAtError-append s.written (error x ∷ []) h refl
  pinged-Open now (err bad_body) s db e h = EndsAtError-append s.written [] h tt
  pinged-Open now (ok ident2) s db e h = rw e (NoError-append s.written (ping ∷ []) h tt)

  tick-Open :
      (p : Phase) (now : ℕ) (answer : Result AuthFailure Identity) (s : Session) (db : Db)
      → s.phase ≡ p
      → IsOpen p s
      → Open (on_tick v json cfg addr connection_id meta p now answer (s, db)).0
  unfolding on_tick
  tick-Open starting now answer s db e h = rw e h
  tick-Open registered now answer s db e h = rw e h
  tick-Open listening now answer s db e h = rw e h
  tick-Open streaming now answer s db e h = pinged-Open now answer s db e h
  tick-Open ended now answer s db e h = rw e h

  disconnect-Open :
      (p : Phase) (s : Session) (db : Db)
      → s.phase ≡ p
      → IsOpen p s
      → Open (on_disconnect v json cfg addr connection_id meta p (s, db)).0
  unfolding on_disconnect on_end
  disconnect-Open starting s db e h = ended_anyway starting s h
  disconnect-Open registered s db e h = ended_anyway registered s h
  disconnect-Open listening s db e h = ended_anyway listening s h
  disconnect-Open streaming s db e h = ended_anyway streaming s h
  disconnect-Open ended s db e h = rw e h

  act-Open :
      (x : Act) (s : Session) (db : Db)
      → Open s
      → Open (act v json cfg addr connection_id meta x (s, db)).0
  unfolding act
  act-Open (registers now) s db h = register-Open s.phase now s db refl h
  act-Open subscribes s db h = subscribe-Open s.phase s refl h
  act-Open (counts now) s db h = count-Open s.phase now s db refl h
  act-Open forwards s db h = forward-Open s.phase s refl h
  act-Open (ticks now answer) s db h = tick-Open s.phase now answer s db refl h
  act-Open ends s db h = disconnect-Open s.phase s db refl h
  act-Open (published e) s db h = published-Open s.phase e s refl h

  acts-Open :
      (xs : List Act) (s : Session × Db)
      → Open s.0
      → Open (acts v json cfg addr connection_id meta xs s).0
  unfolding acts
  acts-Open [] s h = h
  acts-Open (x ∷ xs) (s, db) h =
      acts-Open xs (act v json cfg addr connection_id meta x (s, db)) (act-Open x s db h)

  -- Whatever the steps of a stream, it has written nothing behind an error.
  pub acts-EndsAtError :
      (xs : List Act) (ident : Identity) (db : Db)
      → EndsAtError (acts v json cfg addr connection_id meta xs (fresh_session ident, db)).0.written
  acts-EndsAtError xs ident db =
      ended_anyway _ (acts v json cfg addr connection_id meta xs (fresh_session ident, db)).0
        (acts-Open xs (fresh_session ident, db) tt)
