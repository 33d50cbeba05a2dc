-- ===== src/App.antt =====
-- server/muster_api/app.py: what becomes of a request to `/v1/rpc`. The JSON of a body is what it is
-- read as. The state is the database with what was published, and the cache of the authenticator,
-- whose outside parts are parameters. Starlette answers an exception that has no handler with 500.
pub mod Stamped
pub mod Chats
pub mod Refused
pub mod Mail
pub mod Streams
pub mod Entered
use muster_chat.Base.{
  ℕ, Bool, true, false, ◌||◌, List, [], ◌∷◌, Option, none, some, Result, ok, err, map_err, Text,
  codes, ◌==◌, contains, if◌then◌else◌,
}
use muster_chat.Base.Exec.{Exec, ◌>>=◌, pure, lift}
use muster_chat.Valkey.{Valkey, Json}
use muster_chat.Identity.{Address, AddressError, parse_agent_header}
use muster_chat.Auth.{
  Identity, Doc, AuthError, AuthFailure, refused, bad_body, auth_status, Outcome, Cache, resolve,
}
use muster_chat.Config.{Config}
use muster_chat.Store.Agents.{attribute_error}
use muster_chat.Store.Deliver.{World}
use muster_chat.Ops.Types.{
  Value, Args, OpError, unknown_op, status_code, Failure, raised, crashed, Handler, text,
}
use muster_chat.Ops.Dispatch.{Reply, op_names, dispatch}

-- What stands under `args` in a body: something false or nothing, a dictionary, or something else.
pub data Given : Type 0 where
  falsy : Given
  dict : Args → Given
  other : Given

-- A body, where the value under `op` is the empty text if there is none.
pub data Body : Type 0 where
  not_json : Body
  not_dict : Body
  call : (op : Value) (args : Given) → Body

-- A request, with the two headers that are read.
pub record Request : Type 0 where
  pub api_key : Option Text
  pub agent : Option Text
  pub body : Body

-- The readings of the clocks: two of `time.monotonic` while a key is resolved, and one of `time.time`.
pub record Times : Type 0 where
  pub asked : ℕ
  pub settled : ℕ
  pub wall : ℕ

pub record Server (v : Valkey) : Type 0 where
  pub world : World v
  pub cache : Cache

-- What ends a request early.
pub data Problem (Meta : Type 0) : Type 0 where
  auth : AuthFailure → Problem Meta
  address : AddressError → Problem Meta
  unreadable : Problem Meta
  op : Failure Meta → Problem Meta

-- `request.headers.get(name, "")`
unfoldable pub header : Option Text → Text
header none = []
header (some t) = t

-- an operation is looked up by its name, and only a text is one
unfoldable pub op_name : Value → Text
op_name (text t) = t
op_name v = []

pub data Response (Meta : Type 0) : Type 0 where
  answer : Reply Meta → Response Meta
  auth_refused : AuthError → Response Meta
  bad_header : Response Meta
  op_refused : OpError Meta → Response Meta
  server_error : Response Meta

unfoldable pub status : {Meta : Type 0} → Response Meta → ℕ
status (answer r) = 200
status (auth_refused e) = auth_status e
status bad_header = 400
status (op_refused e) = status_code e
status server_error = 500

-- the handlers of `AuthError`, `AddressError` and `OpError`
unfoldable pub on_problem : {Meta : Type 0} → Problem Meta → Response Meta
on_problem (auth (refused e)) = auth_refused e
on_problem (auth bad_body) = server_error
on_problem (address e) = bad_header
on_problem unreadable = server_error
on_problem (op (raised e)) = op_refused e
on_problem (op (crashed e)) = server_error

unfoldable pub respond : {Meta : Type 0} → Result (Problem Meta) (Reply Meta) → Response Meta
unfolding on_problem
respond (ok r) = answer r
respond (err p) = on_problem p

module _ (v : Valkey) (json : Json) (digest : Text → Text) (repr : Doc → Text)
    (ask : Text → Text → Text → Outcome) (cfg : Config) where
  open json use {Meta}

  abbrev pub Route : Type 0 → Type 0
  Route A = Exec (Server v) (Problem Meta) A

  -- `app.state.auth.resolve`
  unfoldable pub authenticate : Times → Text → Route Identity
  authenticate t key s =
      let (r, cache') = resolve digest repr ask cfg t.asked t.settled key s.cache in
      (map_err auth r, record s { cache = cache' })

  unfoldable pub caller : Times → Request → Route (Identity × Address)
  unfolding authenticate
  caller t req = authenticate t (header req.api_key) >>= λ ident.
      lift (map_err address (parse_agent_header ident.user_id (header req.agent))) >>= λ addr.
      pure (ident, addr)

  -- a handler at work on the database
  unfoldable pub on_world : {A : Type 0} → Handler v Meta A → Route A
  on_world m s = let (r, w) = m s.world in (map_err op r, record s { world = w })

  -- `payload.get("args") or {}`, handed to `dispatch`; what is no dictionary has no `get`
  unfoldable pub run_call : ℕ → Identity × Address → Text → Given → Route (Reply Meta)
  run_call now (ident, addr) name falsy = on_world (dispatch v json cfg now ident addr name [])
  run_call now (ident, addr) name (dict args) =
      on_world (dispatch v json cfg now ident addr name args)
  run_call now (ident, addr) name other = lift (
      err (
        op (
          if contains op_names name
          then crashed attribute_error
          else raised (unknown_op op_names))))

  unfoldable pub run_body : ℕ → Body → Identity × Address → Route (Reply Meta)
  unfolding run_call
  run_body now not_json who = lift (err unreadable)
  run_body now not_dict who = lift (err unreadable)
  run_body now (call name args) who = run_call now who (op_name name) args

  -- `rpc`
  unfoldable pub rpc : Times → Request → Route (Reply Meta)
  unfolding caller run_body
  rpc t req = caller t req >>= run_body t.wall req.body

  -- the answer to the client
  unfoldable pub handle : Times → Request → Server v → Response Meta × Server v
  unfolding rpc respond
  handle t req s = let (r, s') = rpc t req s in (respond r, s')
