-- ===== src/Bus/Answers.antt =====
-- The client against the server: what its requests come back as.
use muster_chat.Base.{
  ℕ, ◌≤◌, ◌≡◌, ◌⊎◌, inl, inr, refl, Option, none, some, ok, err, Text, codes, leb_iff, arith,
}
use muster_chat.Auth.{
  AuthError, missing_key, no_resolver, resolver_unavailable, key_refused, resolver_schema,
  auth_status,
}
use muster_chat.Ops.Types.{
  OpError, agent_not_found, ambiguous_reference, message_rate_exceeded, message_too_large,
  self_send, project_required, group_not_own, scope_not_own, invalid_status, unknown_op,
  status_code, text,
}
use muster_chat.Ops.Dispatch.{Reply}
use muster_chat.App.{
  Request, dict, call, Response, answer, auth_refused, bad_header, op_refused, server_error, status,
}
use muster_chat.Bus.{
  ErrorBody, Payload, reply, problem, Came, came, Post, bus_error, no_fields, json_of, received,
  bad_response,
}

-- The code of an error of the authentication.
unfoldable pub auth_code : AuthError → Text
auth_code missing_key = codes "unauthorized"
auth_code no_resolver = codes "unauthorized"
auth_code key_refused = codes "unauthorized"
auth_code resolver_unavailable = codes "resolver_unavailable"
auth_code resolver_schema = codes "resolver_schema"

-- A request of a client as the server reads it: its headers, ASCII texts with no space at an end,
-- arrive as they are, and so does its body.
unfoldable pub request_of : Post → Request
request_of p = record {
  api_key = some p.api_key;
  agent = some p.agent;
  body = call (text p.op) (dict p.args);
}

module _ {Meta : Type 0} (prose : Response Meta → Text) where
  -- The fields of the payload of an `OpError`.
  unfoldable op_body : OpError Meta → ErrorBody Meta
  op_body (agent_not_found seen) =
      record (no_fields (codes "agent_not_found") (prose (op_refused (agent_not_found seen)))) {
        visible = seen;
      }
  op_body (ambiguous_reference rows) =
      record (no_fields (codes "ambiguous_reference")
        (prose (op_refused (ambiguous_reference rows)))) { candidates = rows }
  op_body (message_rate_exceeded retry limit window) =
      record (no_fields (codes "message_rate_exceeded")
        (prose (op_refused (message_rate_exceeded retry limit window)))) {
          retry_after = some retry;
        }
  op_body (message_too_large size cap) =
      no_fields (codes "message_too_large") (prose (op_refused (message_too_large size cap)))
  op_body self_send = no_fields (codes "self_send") (prose (op_refused self_send))
  op_body project_required = no_fields (codes "invalid_scope") (prose (op_refused project_required))
  op_body group_not_own = no_fields (codes "invalid_scope") (prose (op_refused group_not_own))
  op_body scope_not_own = no_fields (codes "invalid_scope") (prose (op_refused scope_not_own))
  op_body invalid_status = no_fields (codes "invalid_status") (prose (op_refused invalid_status))
  op_body (unknown_op ops) = no_fields (codes "unknown_op") (prose (op_refused (unknown_op ops)))

  -- The JSON of an answer of the server; that of an exception with no handler is a plain text.
  unfoldable pub body_of : Response Meta → Option (Payload Meta)
  unfolding op_body
  body_of (answer r) = some (reply r)
  body_of (auth_refused e) = some (problem (no_fields (auth_code e) (prose (auth_refused e))))
  body_of bad_header = some (problem (no_fields (codes "bad_agent_header") (prose bad_header)))
  body_of (op_refused e) = some (problem (op_body e))
  body_of server_error = none

  unfoldable pub sent_back : Response Meta → Came Meta
  sent_back r = came (status r) (body_of r)

status_code_least : {Meta : Type 0} (e : OpError Meta) → 400 ≤ status_code e
unfolding status_code
status_code_least (agent_not_found seen) = omega arith
status_code_least (ambiguous_reference rows) = omega arith
status_code_least (message_rate_exceeded retry limit window) = omega arith
status_code_least (message_too_large size cap) = omega arith
status_code_least self_send = omega arith
status_code_least project_required = omega arith
status_code_least group_not_own = omega arith
status_code_least scope_not_own = omega arith
status_code_least invalid_status = omega arith
status_code_least (unknown_op ops) = omega arith

auth_status_least : (e : AuthError) → 400 ≤ auth_status e
unfolding auth_status
auth_status_least missing_key = omega arith
auth_status_least no_resolver = omega arith
auth_status_least key_refused = omega arith
auth_status_least resolver_unavailable = omega arith
auth_status_least resolver_schema = omega arith

refused_back :
    {Meta : Type 0} (n : ℕ) (b : ErrorBody Meta)
    → 400 ≤ n
    → received (came n (some (problem b))) ≡ err (bus_error b)
unfolding received
refused_back n b h = ground (arith, leb_iff 400 n)

module _ {Meta : Type 0} (prose : Response Meta → Text) where
  -- A client whose request the server answers gets the answer; one whose request ends in any other
  -- way gets a `BusError`, with the body that the server has sent or the stand-in for a body that
  -- is no JSON.
  pub received-sent_back :
      (r : Response Meta)
      → ((x : Reply Meta) × (r ≡ answer x) × (received (sent_back prose r) ≡ ok (reply x)))
        ⊎ ((e : ErrorBody Meta) × (400 ≤ status r)
            × (received (sent_back prose r) ≡ err (bus_error e))
            × (json_of (status r) (body_of prose r) ≡ problem e))
  unfolding sent_back body_of status json_of received
  received-sent_back (answer x) = inl (x, refl, refl)
  received-sent_back (auth_refused e) =
      inr (_, auth_status_least e, refused_back (auth_status e) _ (auth_status_least e), refl)
  received-sent_back bad_header = inr (_, omega arith, refl, refl)
  received-sent_back (op_refused e) =
      inr (_, status_code_least e, refused_back (status_code e) _ (status_code_least e), refl)
  received-sent_back server_error = inr (bad_response 500, omega arith, refl, refl)
