-- ===== src/App/Mail.antt =====
-- What a request does to the messages that an agent has to fetch.
use mathlib.Core.Path.{subst}
use muster_chat.Base.{
  ℕ, ◌<◌, ◌≡◌, refl, sym, List, [], ◌++◌, append-nil, Result, ok, err, map_err, Text,
}
use muster_chat.Base.Ends.{IsEnd, IsEnd-same}
use muster_chat.Base.Exec.{continue}
use muster_chat.Valkey.{Valkey, Laws, Json}
use muster_chat.Identity.{Address}
use muster_chat.Auth.{Identity, Doc, Outcome, refused, bad_body}
use muster_chat.Config.{Config}
use muster_chat.Ops.Types.{Failure, raised, crashed, Handler}
use muster_chat.Ops.Dispatch.{Reply, dispatch}
use muster_chat.Ops.Dispatch.Cursors.{CursorsAreIssued}
use muster_chat.Ops.Mail.{brought, told_by, ids, Mails}
use muster_chat.Ops.Mail.Requests.{dispatch-Mails}
use muster_chat.App.{
  falsy, dict, other, Body, not_json, not_dict, call, Request, Times, Server, Problem, auth,
  address, unreadable, op, op_name, Response, answer, auth_refused, bad_header, op_refused,
  server_error, on_problem, respond, caller, on_world, run_call, run_body, rpc, handle,
}
use muster_chat.App.Refused.{caller-world}

-- The identifiers of the messages that a response says were brought to an agent.
abbrev pub mailed : {Meta : Type 0} → Text → Response Meta → List Text
mailed a (answer r) = brought a r
mailed a (auth_refused e) = []
mailed a bad_header = []
mailed a (op_refused e) = []
mailed a server_error = []

mailed-on_problem : {Meta : Type 0} (a : Text) (p : Problem Meta) → mailed a (on_problem p) ≡ []
unfolding on_problem
mailed-on_problem a (auth (refused e)) = refl
mailed-on_problem a (auth bad_body) = refl
mailed-on_problem a (address e) = refl
mailed-on_problem a unreadable = refl
mailed-on_problem a (op (raised e)) = refl
mailed-on_problem a (op (crashed e)) = refl

mailed-respond :
    {Meta : Type 0} (a : Text) (r : Result (Failure Meta) (Reply Meta))
    → mailed a (respond (map_err op r)) ≡ told_by brought a r
unfolding respond
mailed-respond a (ok r) = refl
mailed-respond a (err e) = mailed-on_problem a (op e)

module _ (v : Valkey) (laws : Laws v) (json : Json) (digest : Text → Text) (repr : Doc → Text)
    (ask : Text → Text → Text → Outcome) (cfg : Config) where
  open json use {Meta}

  -- What a response says of the state behind it.
  abbrev IsMailed : Text → Server v → Result (Problem Meta) (Reply Meta) → Server v → Type 0
  IsMailed a s r u =
      IsEnd (ids v laws json a u.world.db) (ids v laws json a s.world.db ++ mailed a (respond r))

  failed-IsMailed : (a : Text) (s : Server v) (p : Problem Meta) → IsMailed a s (err p) s
  unfolding respond
  failed-IsMailed a s p =
      rw (mailed-on_problem a p, append-nil (ids v laws json a s.world.db)) (IsEnd-same refl)

  on_world-IsMailed :
      (m : Handler v Meta (Reply Meta)) (a : Text) (s : Server v)
      → CursorsAreIssued v laws json s.world
      → Mails v laws json brought m
      → IsMailed a s
          (on_world v json digest repr ask cfg m s).0
          (on_world v json digest repr ask cfg m s).1
  unfolding on_world
  on_world-IsMailed m a s issued h = rw (mailed-respond a (m s.world).0) (h a s.world issued)

  module _ (capped : 0 < cfg.inbox_maxlen) where
    run_body-IsMailed :
        (now : ℕ) (body : Body) (who : Identity × Address) (a : Text) (s : Server v)
        → CursorsAreIssued v laws json s.world
        → IsMailed a s
            (run_body v json digest repr ask cfg now body who s).0
            (run_body v json digest repr ask cfg now body who s).1
    unfolding run_body run_call
    run_body-IsMailed now not_json who a s issued = failed-IsMailed a s unreadable
    run_body-IsMailed now not_dict who a s issued = failed-IsMailed a s unreadable
    run_body-IsMailed now (call name falsy) (ident, addr) a s issued =
        on_world-IsMailed (dispatch v json cfg now ident addr (op_name name) []) a s issued
          (dispatch-Mails v laws json cfg now ident addr [] (op_name name) capped)
    run_body-IsMailed now (call name (dict args)) (ident, addr) a s issued =
        on_world-IsMailed (dispatch v json cfg now ident addr (op_name name) args) a s issued
          (dispatch-Mails v laws json cfg now ident addr args (op_name name) capped)
    run_body-IsMailed now (call name other) (ident, addr) a s issued = failed-IsMailed a s _

    entered-IsMailed :
        (now : ℕ) (body : Body) (c : Result (Problem Meta) (Identity × Address)) (a : Text)
        (s : Server v)
        → CursorsAreIssued v laws json s.world
        → IsMailed a s
            (continue c (run_body v json digest repr ask cfg now body) s).0
            (continue c (run_body v json digest repr ask cfg now body) s).1
    entered-IsMailed now body (ok who) a s issued = run_body-IsMailed now body who a s issued
    entered-IsMailed now body (err p) a s issued = failed-IsMailed a s p

    -- Whatever the request and however it ends, what an agent has to fetch is some end of what it
    -- had to fetch, with the message behind that the response says was brought to it.
    pub handle-mailed :
        (t : Times) (req : Request) (a : Text) (s : Server v)
        → CursorsAreIssued v laws json s.world
        → IsEnd
            (ids v laws json a (handle v json digest repr ask cfg t req s).1.world.db)
            (ids v laws json a s.world.db ++ mailed a (handle v json digest repr ask cfg t req s).0)
    unfolding handle rpc
    handle-mailed t req a s issued =
        let s' = (caller v json digest repr ask cfg t req s).1 in
        let same : s'.world ≡ s.world = caller-world v laws json digest repr ask cfg t req s in
        subst
          (λ w.
            IsEnd (ids v laws json a (handle v json digest repr ask cfg t req s).1.world.db)
              (ids v laws json a w.db ++ mailed a (handle v json digest repr ask cfg t req s).0))
          same
          (entered-IsMailed t.wall req.body (caller v json digest repr ask cfg t req s).0 a s'
            (subst (CursorsAreIssued v laws json) (sym same) issued))
