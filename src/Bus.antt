-- ===== src/Bus.antt =====
-- `MusterClient.rpc` of plugins/muster/mcp/httpbus.py: a request of a client, and what is made of the
-- answer. The http library is a parameter, a function from requests to what comes back.
pub mod Answers
use muster_chat.Base.{
  ℕ, ◌+◌, List, [], ◌∷◌, ◌++◌, Option, none, some, Result, ok, err, Text, codes, decimal, leb,
  if◌then◌else◌,
}
use muster_chat.Naming.{rstrip_slash}
use muster_chat.Ops.Types.{Args, PublicRow}
use muster_chat.Ops.Dispatch.{Reply}

-- What is read of the body of an error, `[]` and `none` where a field is not there.
pub record ErrorBody (Meta : Type 0) : Type 0 where
  pub code : Text
  pub message : Text
  pub visible : List Text
  pub candidates : List (PublicRow Meta)
  pub retry_after : Option ℕ

-- The JSON of an answer: a dictionary of a handler, that of an error, or no dictionary.
pub data Payload (Meta : Type 0) : Type 0 where
  reply : Reply Meta → Payload Meta
  problem : ErrorBody Meta → Payload Meta
  other : Payload Meta

-- What becomes of a POST: an exception, by the name of its class, or a status and a body, `none` where
-- it is not JSON.
pub data Came (Meta : Type 0) : Type 0 where
  lost : (exception : Text) → Came Meta
  came : (status : ℕ) → Option (Payload Meta) → Came Meta

-- `BusError`, or any other exception, by the name of its class
pub data BusFailure (Meta : Type 0) : Type 0 where
  bus_error : ErrorBody Meta → BusFailure Meta
  exception : Text → BusFailure Meta

pub record MusterClient : Type 0 where
  pub url : Text
  pub api_key : Text
  pub agent : Text

pub record Post : Type 0 where
  pub url : Text
  pub api_key : Text
  pub agent : Text
  pub op : Text
  pub args : Args

-- `MusterClient(url, api_key, agent)`
unfoldable pub muster_client : Text → Text → Text → MusterClient
muster_client url api_key agent = record {
  url = rstrip_slash url;
  api_key = api_key;
  agent = agent;
}

unfoldable pub post_of : MusterClient → Text → Args → Post
post_of c op args = record {
  url = c.url ++ codes "/v1/rpc";
  api_key = c.api_key;
  agent = c.agent;
  op = op;
  args = args;
}

abbrev pub no_fields : {Meta : Type 0} → Text → Text → ErrorBody Meta
no_fields code message = record {
  code = code;
  message = message;
  visible = [];
  candidates = [];
  retry_after = none;
}

-- the stand-in for a body that is not JSON
unfoldable pub bad_response : {Meta : Type 0} → ℕ → ErrorBody Meta
bad_response status =
    no_fields (codes "bad_response") (codes "non-JSON answer (" ++ (decimal status ++ codes ")"))

unfoldable pub json_of : {Meta : Type 0} → ℕ → Option (Payload Meta) → Payload Meta
unfolding bad_response
json_of status none = problem (bad_response status)
json_of status (some p) = p

-- `raise BusError(status, data)`, whose constructor calls `data.get`
unfoldable bus_failure : {Meta : Type 0} → Payload Meta → BusFailure Meta
bus_failure (reply r) = bus_error (no_fields [] [])
bus_failure (problem e) = bus_error e
bus_failure other = exception (codes "AttributeError")

unfoldable pub received : {Meta : Type 0} → Came Meta → Result (BusFailure Meta) (Payload Meta)
unfolding json_of bus_failure
received (lost name) = err (exception name)
received (came status body) =
    let p = json_of status body in if leb 400 status then err (bus_failure p) else ok p

-- `rpc`
unfoldable pub rpc :
    {Meta : Type 0}
    → MusterClient
    → (Post → Came Meta)
    → Text
    → Args
    → Result (BusFailure Meta) (Payload Meta)
unfolding received post_of
rpc c send op args = received (send (post_of c op args))
