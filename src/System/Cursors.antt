-- ===== src/System/Cursors.antt =====
-- Whatever happens to the server, no cursor is broken.
use mathlib.Core.Path.{subst}
use muster_chat.Base.{
  ℕ, ◌≡◌, sym, List, [], ◌∷◌, none, Result, ok, map_err, Text, ◌==◌, ==_sound, ne_of_==, Bool-cases,
  inl, inr, arith,
}
use muster_chat.Base.Exec.{Exec, lift}
use muster_chat.Base.Handlers.{Keeps, Keeps-bind, Keeps-lift}
use muster_chat.Valkey.{Valkey, Laws, Json}
use muster_chat.Identity.{Address, address_text, parse_agent_header}
use muster_chat.Auth.{Identity, Doc, Outcome}
use muster_chat.Config.{Config}
use muster_chat.Store.Keys.{inbox_key, cursor_key, Key, key_text}
use muster_chat.Store.Inbox.Fetch.{CursorIsIssued, CursorIsIssued-frame}
use muster_chat.Ops.Types.{Args}
use muster_chat.Ops.Dispatch.{dispatch}
use muster_chat.Ops.Dispatch.Cursors.{CursorsAreIssued, dispatch-CursorIsIssued}
use muster_chat.Reaper.{forget, reap_agent, reap, reap_once}
use muster_chat.Reaper.Directory.{
  cursor_of, inbox_of, round, forget_frame, forget-part, part-injective,
}
use muster_chat.Stream.Ownership.{Move, run_move}
use muster_chat.Stream.Foreign.{inbox-IsForeign, cursor-IsForeign, run_move-cell}
use muster_chat.App.{
  falsy, dict, other, Body, not_json, not_dict, call, Request, Times, Server, Problem, address,
  header, op_name, authenticate, caller, on_world, run_call, run_body, rpc, handle,
}
use muster_chat.System.{Step, serves, streams, reaps, lapses, Reach, here, next}

module _ (v : Valkey) (laws : Laws v) (json : Json) (cfg : Config) where
  open v use {Db, cell, get}
  open json use {Meta}
  open laws use {absent}

  run_move-CursorIsIssued :
      (addr : Address) (m : Move Meta) (a : Text) (db : Db)
      → CursorIsIssued v laws a db
      → CursorIsIssued v laws a (run_move v json cfg addr m db)
  run_move-CursorIsIssued addr m a db h =
      CursorIsIssued-frame v laws a db _
        (run_move-cell v laws json cfg addr (inbox_key a) (inbox-IsForeign (address_text addr) a) m
          db)
        (run_move-cell v laws json cfg addr (cursor_key a) (cursor-IsForeign (address_text addr) a)
          m db)
        h

  no_cursor :
      (b : Text) (db : Db) → get (cell db (cursor_key b)) ≡ none → CursorIsIssued v laws b db
  no_cursor b db e = rw e tt

  forgotten : (b : Text) (db : Db) → CursorIsIssued v laws b (forget v b db)
  unfolding key_text
  forgotten b db =
      no_cursor b (forget v b db)
        (absent (cell (forget v b db) (cursor_key b)) (forget-part v laws b cursor_of db)).2

  forget-CursorIsIssued :
      (a b : Text) (db : Db) → CursorIsIssued v laws b db → CursorIsIssued v laws b (forget v a db)
  unfolding key_text
  forget-CursorIsIssued a b db h = elim (Bool-cases (a == b)) [
    | inl q ↦
        subst (λ c. CursorIsIssued v laws b (forget v c db)) (sym (==_sound a b q)) (forgotten b db)
    | inr q ↦
        CursorIsIssued-frame v laws b db _
          (forget_frame v laws a (Key.inbox b) db (λ e. ground arith)
            (λ p e. ne_of_== a b q (part-injective p inbox_of a b e)))
          (forget_frame v laws a (Key.cursor b) db (λ e. ground arith)
            (λ p e. ne_of_== a b q (part-injective p cursor_of a b e)))
          h
  ]

  reap_agent-CursorIsIssued :
      (a b : Text) (db : Db)
      → CursorIsIssued v laws b db
      → CursorIsIssued v laws b (reap_agent v a db).1
  reap_agent-CursorIsIssued a b db h = elim (round v laws a db) [
    | inl (_, e) ↦ rw e h
    | inr (_, e) ↦ rw e (forget-CursorIsIssued a b db h)
  ]

  reap-CursorIsIssued :
      (as' : List Text) (b : Text) (db : Db)
      → CursorIsIssued v laws b db
      → CursorIsIssued v laws b (reap v as' db).1
  unfolding reap
  reap-CursorIsIssued [] b db h = h
  reap-CursorIsIssued (a ∷ as') b db h =
      reap-CursorIsIssued as' b (reap_agent v a db).1 (reap_agent-CursorIsIssued a b db h)

module _ (v : Valkey) (laws : Laws v) (json : Json) (digest : Text → Text) (repr : Doc → Text)
    (ask : Text → Text → Text → Outcome) (cfg : Config) where
  open json use {Meta}

  -- Every cursor of the server is at the start or at an issued entry.
  abbrev pub IsSound : Server v → Type 0
  IsSound s = CursorsAreIssued v laws json s.world

  abbrev KeepsSound : {A : Type 0} → Exec (Server v) (Problem Meta) A → Type 0
  KeepsSound m = Keeps IsSound m

  on_dispatch :
      (now : ℕ) (ident : Identity) (addr : Address) (name : Text) (args : Args)
      → KeepsSound
          (on_world v json digest repr ask cfg (dispatch v json cfg now ident addr name args))
  unfolding on_world
  on_dispatch now ident addr name args = record {
    at = λ s h a. dispatch-CursorIsIssued v laws json cfg now ident addr args name s.world a h;
  }

  run_body-Keeps :
      (now : ℕ) (body : Body) (who : Identity × Address)
      → KeepsSound (run_body v json digest repr ask cfg now body who)
  unfolding run_body run_call
  run_body-Keeps now not_json who = Keeps-lift _
  run_body-Keeps now not_dict who = Keeps-lift _
  run_body-Keeps now (call name falsy) (ident, addr) = on_dispatch now ident addr (op_name name) []
  run_body-Keeps now (call name (dict args)) (ident, addr) =
      on_dispatch now ident addr (op_name name) args
  run_body-Keeps now (call name other) (ident, addr) = Keeps-lift _

  caller-Keeps : (t : Times) (req : Request) → KeepsSound (caller v json digest repr ask cfg t req)
  unfolding caller
  caller-Keeps t req =
      let keys : KeepsSound (authenticate v json digest repr ask cfg t (header req.api_key)) =
        record { at = λ s h. unfold authenticate in h } in
      Keeps-bind (authenticate v json digest repr ask cfg t (header req.api_key)) _ keys λ ident.
        let parsed : Result (Problem Meta) Address =
          map_err address (parse_agent_header ident.user_id (header req.agent)) in
        Keeps-bind (lift parsed) _ (Keeps-lift parsed) λ addr. Keeps-lift (ok (ident, addr))

  handle-IsSound :
      (t : Times) (req : Request) (s : Server v)
      → IsSound s
      → IsSound (handle v json digest repr ask cfg t req s).1
  unfolding handle rpc
  handle-IsSound t req s h =
      (Keeps-bind (caller v json digest repr ask cfg t req) _ (caller-Keeps t req)
          λ who. run_body-Keeps t.wall req.body who).at
        s h

  Step-IsSound : {s u : Server v} → Step v json digest repr ask cfg s u → IsSound s → IsSound u
  unfolding reap_once
  Step-IsSound {s} (serves t req) h a = handle-IsSound t req s h a
  Step-IsSound {s} (streams addr m) h a =
      run_move-CursorIsIssued v laws json cfg addr m a s.world.db (h a)
  Step-IsSound {s} reaps h a = reap-CursorIsIssued v laws json cfg _ a s.world.db (h a)
  Step-IsSound {s} (lapses db i c) h a =
      CursorIsIssued-frame v laws a s.world.db db (i a) (c a) (h a)

  pub Reach-IsSound :
      {s u : Server v} → IsSound s → Reach v json digest repr ask cfg s u → IsSound u
  Reach-IsSound h here = h
  Reach-IsSound h (next r st) = Step-IsSound st (Reach-IsSound h r)

  -- Whatever requests, streams, rounds of the reaper and expiries of keys come, in whatever order,
  -- every cursor is at the start or at an issued entry of its stream, if every cursor was at first.
  pub Reach-CursorIsIssued :
      (s u : Server v) (a : Text)
      → IsSound s
      → Reach v json digest repr ask cfg s u
      → CursorIsIssued v laws a u.world.db
  Reach-CursorIsIssued s u a h r = Reach-IsSound h r a
