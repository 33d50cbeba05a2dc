-- ===== src/Stream/Foreign.antt =====
-- What a stream does not touch: every key but the directory's, and the hash and the presence of its
-- own agent.
use muster_chat.Base.{
  ℕ, ◌≡◌, ◌≢◌, refl, ◌∙◌, List, [], ◌∷◌, ok, err, Result, Text, arith, Bool-cases, inl, inr,
}
use muster_chat.Valkey.{Valkey, Laws, Json}
use muster_chat.Identity.{Address, address_text}
use muster_chat.Auth.{Identity, AuthFailure, refused, bad_body}
use muster_chat.Config.{Config}
use muster_chat.Store.Keys.{agents_key, agent_key, presence_key, inbox_key, cursor_key}
use muster_chat.Store.Agents.{Crash, register_agent}
use muster_chat.Store.Presence.{touch_presence, clear_presence_frame}
use muster_chat.Store.Inbox.{unread_count}
use muster_chat.Stream.{open_stream, refresh, ping_step, close_stream, same_groups}
use muster_chat.Stream.Ownership.{Move, opens, pings, closes, run_move}
use muster_chat.Stream.Session.{
  Phase, starting, registered, listening, streaming, ended, Session, Act, registers, subscribes,
  counts, forwards, ticks, ends, published, on_register, on_end, counted, on_count, pinged, on_tick,
  on_disconnect, act, acts,
}

-- A key that a stream of the agent writes nothing at.
pub record IsForeign (a k : Text) : Type 0 where
  pub not_agents : agents_key ≢ k
  pub not_agent : agent_key a ≢ k
  pub not_presence : presence_key a ≢ k

-- The inboxes and the cursors of all agents are.
pub inbox-IsForeign : (a b : Text) → IsForeign a (inbox_key b)
unfolding agents_key agent_key presence_key inbox_key
inbox-IsForeign a b = record {
  not_agents = λ e. ground arith;
  not_agent = λ e. ground arith;
  not_presence = λ e. ground arith;
}

pub cursor-IsForeign : (a b : Text) → IsForeign a (cursor_key b)
unfolding agents_key agent_key presence_key cursor_key
cursor-IsForeign a b = record {
  not_agents = λ e. ground arith;
  not_agent = λ e. ground arith;
  not_presence = λ e. ground arith;
}

module _ (v : Valkey) (laws : Laws v) (json : Json) (cfg : Config) (addr : Address) (k : Text)
    (foreign : IsForeign (address_text addr) k) where
  open v use {Db, cell}
  open json use {Meta}
  open laws use {frame_sadd, frame_hset, frame_expire}

  register_agent-cell :
      (now : ℕ) (groups : List Text) (meta : Meta) (retention : ℕ) (db : Db)
      → cell (register_agent v json now addr groups meta retention db) k ≡ cell db k
  unfolding register_agent
  register_agent-cell now groups meta retention db =
      frame_expire retention (agent_key (address_text addr)) k _ foreign.not_agent
      ∙ frame_hset _ (agent_key (address_text addr)) k _ foreign.not_agent
      ∙ frame_sadd (address_text addr) agents_key k db foreign.not_agents

  touch_presence-cell :
      (now : ℕ) (c : Text) (ttl : ℕ) (db : Db)
      → cell (touch_presence v now (address_text addr) c ttl db) k ≡ cell db k
  unfolding touch_presence
  touch_presence-cell now c ttl db =
      frame_expire ttl (presence_key (address_text addr)) k _ foreign.not_presence
      ∙ frame_hset _ (presence_key (address_text addr)) k db foreign.not_presence

  refresh-cell :
      (now : ℕ) (ident ident2 : Identity) (meta : Meta) (db : Db)
      → cell (refresh v json cfg addr now ident ident2 meta db).1 k ≡ cell db k
  unfolding refresh
  refresh-cell now ident ident2 meta db =
      elim (Bool-cases (same_groups ident2.groups ident.groups)) [
        | inl q ↦ rw q refl
        | inr q ↦ rw q (register_agent-cell now ident2.groups meta cfg.agent_retention db)
      ]

  ping_step-cell :
      (now : ℕ) (c : Text) (ident : Identity) (meta : Meta) (answer : Result AuthFailure Identity)
      (db : Db)
      → cell (ping_step v json cfg addr now c ident meta answer db).1 k ≡ cell db k
  unfolding ping_step
  ping_step-cell now c ident meta (err (refused e)) db = refl
  ping_step-cell now c ident meta (err bad_body) db = refl
  ping_step-cell now c ident meta (ok ident2) db =
      touch_presence-cell now c cfg.presence_ttl _ ∙ refresh-cell now ident ident2 meta db

  close_stream-cell : (c : Text) (db : Db) → cell (close_stream v json cfg addr c db) k ≡ cell db k
  unfolding close_stream
  close_stream-cell c db =
      clear_presence_frame v laws (address_text addr) c k db foreign.not_presence

  -- A move of a connection changes nothing at such a key.
  pub run_move-cell : (m : Move Meta) (db : Db) → cell (run_move v json cfg addr m db) k ≡ cell db k
  unfolding run_move open_stream
  run_move-cell (opens now c ident meta) db =
      touch_presence-cell now c cfg.presence_ttl _
      ∙ register_agent-cell now ident.groups meta cfg.agent_retention db
  run_move-cell (pings now c ident meta answer) db = ping_step-cell now c ident meta answer db
  run_move-cell (closes c) db = close_stream-cell c db

  module _ (c : Text) (meta : Meta) where
    register-cell :
        (p : Phase) (now : ℕ) (s : Session) (db : Db)
        → cell (on_register v json cfg addr c meta p now (s, db)).1 k ≡ cell db k
    unfolding on_register
    register-cell starting now s db =
        touch_presence-cell now c cfg.presence_ttl _
        ∙ register_agent-cell now s.ident.groups meta cfg.agent_retention db
    register-cell registered now s db = refl
    register-cell listening now s db = refl
    register-cell streaming now s db = refl
    register-cell ended now s db = refl

    counted-cell :
        (r : Result Crash (ℕ × Text)) (s : Session) (db : Db)
        → cell (counted v json cfg addr c meta r (s, db)).1 k ≡ cell db k
    unfolding counted on_end
    counted-cell (ok n) s db = refl
    counted-cell (err e) s db = close_stream-cell c db

    count-cell :
        (p : Phase) (now : ℕ) (s : Session) (db : Db)
        → cell (on_count v json cfg addr c meta p now (s, db)).1 k ≡ cell db k
    unfolding on_count
    count-cell starting now s db = refl
    count-cell registered now s db = refl
    count-cell listening now s db = counted-cell (unread_count v now (address_text addr) db) s db
    count-cell streaming now s db = refl
    count-cell ended now s db = refl

    pinged-cell :
        (now : ℕ) (answer : Result AuthFailure Identity) (s : Session) (db : Db)
        → cell
            (pinged v json cfg addr c meta
              (ping_step v json cfg addr now c s.ident meta answer db)
              s).1
            k
          ≡ cell db k
    unfolding pinged on_end ping_step
    pinged-cell now (err (refused e)) s db = close_stream-cell c db
    pinged-cell now (err bad_body) s db = close_stream-cell c db
    pinged-cell now (ok ident2) s db = ping_step-cell now c s.ident meta (ok ident2) db

    tick-cell :
        (p : Phase) (now : ℕ) (answer : Result AuthFailure Identity) (s : Session) (db : Db)
        → cell (on_tick v json cfg addr c meta p now answer (s, db)).1 k ≡ cell db k
    unfolding on_tick
    tick-cell starting now answer s db = refl
    tick-cell registered now answer s db = refl
    tick-cell listening now answer s db = refl
    tick-cell streaming now answer s db = pinged-cell now answer s db
    tick-cell ended now answer s db = refl

    disconnect-cell :
        (p : Phase) (s : Session) (db : Db)
        → cell (on_disconnect v json cfg addr c meta p (s, db)).1 k ≡ cell db k
    unfolding on_disconnect on_end
    disconnect-cell starting s db = refl
    disconnect-cell registered s db = refl
    disconnect-cell listening s db = close_stream-cell c db
    disconnect-cell streaming s db = close_stream-cell c db
    disconnect-cell ended s db = refl

    act-cell :
        (x : Act) (s : Session) (db : Db)
        → cell (act v json cfg addr c meta x (s, db)).1 k ≡ cell db k
    unfolding act
    act-cell (registers now) s db = register-cell s.phase now s db
    act-cell subscribes s db = refl
    act-cell (counts now) s db = count-cell s.phase now s db
    act-cell forwards s db = refl
    act-cell (ticks now answer) s db = tick-cell s.phase now answer s db
    act-cell ends s db = disconnect-cell s.phase s db
    act-cell (published e) s db = refl

    -- Nor does a stream in whatever steps.
    pub acts-cell :
        (xs : List Act) (s : Session) (db : Db)
        → cell (acts v json cfg addr c meta xs (s, db)).1 k ≡ cell db k
    unfolding acts
    acts-cell [] s db = refl
    acts-cell (x ∷ xs) s db =
        let (s', db') = act v json cfg addr c meta x (s, db) in
        acts-cell xs s' db' ∙ act-cell x s db
