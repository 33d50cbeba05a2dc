-- ===== src/Ops/Types.antt =====
-- The arguments of a request, and the errors of a handler.
use muster_chat.Base.{
  ◌≡◌, ◌↔◌, ap, ==_iff, ==_sound, arith, ℕ, zero, suc, Bool, true, false, List, [], ◌∷◌, Option,
  none, some, Result, ok, err, ℤ, pos, negsuc, Text, ◌==◌, int_of_text, min, all, ltb, ◌||◌, ◌>>=◌,
  if◌then◌else◌,
}
use muster_chat.Base.Exec.{Exec}
use muster_chat.Valkey.{Valkey}
use muster_chat.Store.Deliver.{World}
use muster_chat.Store.Agents.{Crash, attribute_error, value_error, data_error, unicode_error, Row}

-- A JSON value where the operations take a scalar.
pub data Value : Type 0 where
  null : Value
  bool : Bool → Value
  int : ℤ → Value
  text : Text → Value

abbrev pub Args : Type 0
Args = List (Text × Value)

-- `args.get(k)`
unfoldable pub arg : Text → Args → Value
arg k [] = null
arg k ((j, v) ∷ args) = let rest = arg k args in if j == k then v else rest

-- `bool(v)`
unfoldable pub truthy : Value → Bool
truthy null = false
truthy (bool b) = b
truthy (int (pos zero)) = false
truthy (int (pos (suc n))) = true
truthy (int (negsuc n)) = true
truthy (text []) = false
truthy (text (c ∷ t)) = true

-- `v == t`, for a text
unfoldable pub is_text : Value → Text → Bool
is_text (text s) t = s == t
is_text v t = false

pub is_text_iff : (v : Value) (t : Text) → (is_text v t ≡ true) ↔ (v ≡ text t)
unfolding is_text
is_text_iff null t = (λ h. absurd (ground arith), λ e. absurd (ground arith))
is_text_iff (bool b) t = (λ h. absurd (ground arith), λ e. absurd (ground arith))
is_text_iff (int z) t = (λ h. absurd (ground arith), λ e. absurd (ground arith))
is_text_iff (text s) t = (λ h. ap text (==_sound s t h), λ e. (==_iff s t).1 cc)

-- A row of the roster: `groups` is left out.
pub record PublicRow (Meta : Type 0) : Type 0 where
  pub addr : Text
  pub user : Text
  pub host : Text
  pub runtime : Text
  pub project : Text
  pub session : Text
  pub status : Text
  pub last_connect : ℤ
  pub meta : Meta

unfoldable pub public_row : {Meta : Type 0} → Row Meta → PublicRow Meta
public_row a = record {
  addr = a.addr;
  user = a.user;
  host = a.host;
  runtime = a.runtime;
  project = a.project;
  session = a.session;
  status = a.status;
  last_connect = a.last_connect;
  meta = a.meta;
}

-- `class OpError`, by its `code` and the fields of its payload; the prose of `message` is left out.
-- The code `invalid_scope` is raised for three reasons, of two statuses.
pub data OpError (Meta : Type 0) : Type 0 where
  agent_not_found : (visible : List Text) → OpError Meta
  ambiguous_reference : (candidates : List (PublicRow Meta)) → OpError Meta
  message_rate_exceeded : (retry_after limit window : ℕ) → OpError Meta
  message_too_large : (size cap : ℕ) → OpError Meta
  self_send : OpError Meta
  project_required : OpError Meta
  group_not_own : OpError Meta
  scope_not_own : OpError Meta
  invalid_status : OpError Meta
  unknown_op : (ops : List Text) → OpError Meta

unfoldable pub status_code : {Meta : Type 0} → OpError Meta → ℕ
status_code (agent_not_found _) = 404
status_code (ambiguous_reference _) = 409
status_code (message_rate_exceeded _ _ _) = 429
status_code (message_too_large _ _) = 413
status_code self_send = 400
status_code project_required = 400
status_code group_not_own = 403
status_code scope_not_own = 403
status_code invalid_status = 400
status_code (unknown_op _) = 400

-- What ends a handler early: an answer to the caller, or an exception that nothing catches.
pub data Failure (Meta : Type 0) : Type 0 where
  raised : OpError Meta → Failure Meta
  crashed : Crash → Failure Meta

abbrev pub Handler : Valkey → Type 0 → Type 0 → Type 0
Handler v Meta A = Exec (World v) (Failure Meta) A

-- `args.get(k) or ""`, where the code goes on to call a method of `str`
unfoldable pub text_arg : {Meta : Type 0} → Value → Result (Failure Meta) Text
text_arg (text t) = ok t
text_arg v = if truthy v then err (crashed attribute_error) else ok []

-- no surrogate, which UTF-8 has no bytes for
abbrev pub is_encodable : ℕ → Bool
is_encodable c = ltb c 0xD800 || ltb 0xDFFF c

-- a text, once `.encode()` has not raised
unfoldable pub encoded : {Meta : Type 0} → Text → Result (Failure Meta) Text
encoded t = if all is_encodable t then ok t else err (crashed unicode_error)

-- `args.get("body") or ""`, with the `body.encode()` that follows
unfoldable pub body_arg : {Meta : Type 0} → Value → Result (Failure Meta) Text
body_arg v = text_arg v >>= encoded

-- `args.get("subject")`, of which the code asks only whether it is true and what text it is, with the
-- `(subject or "").encode()` that follows
unfoldable pub subject_arg : {Meta : Type 0} → Value → Result (Failure Meta) (Option Text)
unfolding encoded
subject_arg (text []) = ok none
subject_arg (text (c ∷ t)) = encoded (c ∷ t) >>= λ s. ok (some s)
subject_arg v = if truthy v then err (crashed attribute_error) else ok none

-- `int(args.get("limit") or 20)`
unfoldable pub int_arg : {Meta : Type 0} → Value → Result (Failure Meta) ℤ
int_arg (int z) = if truthy (int z) then ok z else ok (pos 20)
int_arg (bool b) = if b then ok (pos 1) else ok (pos 20)
int_arg (text []) = ok (pos 20)
int_arg (text (c ∷ t)) = elim (int_of_text (c ∷ t)) [
  | none ↦ err (crashed value_error)
  | some z ↦ ok z
]
int_arg null = ok (pos 20)

-- `min(…, 100)` as the COUNT of a read, which the client library refuses below 1
unfoldable pub count_arg : {Meta : Type 0} → ℤ → Result (Failure Meta) ℕ
count_arg (pos zero) = err (crashed data_error)
count_arg (pos (suc n)) = ok (min (suc n) 100)
count_arg (negsuc n) = err (crashed data_error)
