-- ===== src/App/Refused.antt =====
-- Requests that are refused.
use mathlib.Core.Path.{subst}
use muster_chat.Base.{
  ℕ, ◌≡◌, ◌≢◌, ◌⊎◌, inl, inr, refl, [], Result, ok, err, map_err, Text, Result-cases,
}
use muster_chat.Base.Exec.{continue, lift}
use muster_chat.Base.Handlers.{Keeps, Keeps-bind, Keeps-lift}
use muster_chat.Valkey.{Valkey, Laws, Json}
use muster_chat.Identity.{Address, parse_agent_header}
use muster_chat.Auth.{
  Identity, Doc, AuthError, missing_key, no_resolver, resolver_unavailable, key_refused,
  resolver_schema, auth_status, AuthFailure, refused, bad_body, Outcome, resolve,
}
use muster_chat.Auth.Resolved.{Rests, resolve_lem}
use muster_chat.Config.{Config}
use muster_chat.Store.Deliver.{World}
use muster_chat.Ops.Types.{OpError, Failure, raised, crashed, Handler}
use muster_chat.Ops.Refused.{Undelivered}
use muster_chat.Ops.Dispatch.{Reply, dispatch}
use muster_chat.Ops.Dispatch.Refusals.{dispatch-Undelivered}
use muster_chat.App.{
  falsy, dict, other, Body, not_json, not_dict, call, Request, Times, Server, Problem, auth,
  address, op, header, op_name, Response, status, on_problem, respond, authenticate, caller,
  on_world, run_call, run_body, rpc, handle,
}

-- The status of a request whose key stands for no identity.
abbrev pub IsBarred : ℕ → Type 0
IsBarred n = (n ≡ 401) ⊎ ((n ≡ 500) ⊎ ((n ≡ 502) ⊎ (n ≡ 503)))

auth_status-IsBarred : (e : AuthError) → IsBarred (auth_status e)
unfolding auth_status
auth_status-IsBarred missing_key = inl refl
auth_status-IsBarred no_resolver = inl refl
auth_status-IsBarred resolver_unavailable = inr (inr (inr refl))
auth_status-IsBarred key_refused = inl refl
auth_status-IsBarred resolver_schema = inr (inr (inl refl))

module _ (v : Valkey) (laws : Laws v) (json : Json) (digest : Text → Text) (repr : Doc → Text)
    (ask : Text → Text → Text → Outcome) (cfg : Config) where
  open json use {Meta}

  -- The client is told of an error that is its own.
  abbrev IsRefusal : Response Meta → Type 0
  IsRefusal r = (status r ≢ 200) × (status r ≢ 500)

  reply_refused :
      (r : Result (Failure Meta) (Reply Meta)) (u w : World v)
      → ((e : OpError Meta) → r ≡ err (raised e) → Undelivered v laws json u w)
      → IsRefusal (respond (map_err op r))
      → Undelivered v laws json u w
  unfolding respond status
  reply_refused (ok r) u w h (a, b) = absurd (a refl)
  reply_refused (err (raised e)) u w h k = h e refl
  reply_refused (err (crashed c)) u w h (a, b) = absurd (b refl)

  on_world-Undelivered :
      (m : Handler v Meta (Reply Meta)) (s : Server v)
      → ((e : OpError Meta)
          → (m s.world).0 ≡ err (raised e)
          → Undelivered v laws json s.world (m s.world).1)
      → IsRefusal (respond (on_world v json digest repr ask cfg m s).0)
      → Undelivered v laws json s.world (on_world v json digest repr ask cfg m s).1.world
  unfolding on_world
  on_world-Undelivered m s h k = reply_refused (m s.world).0 s.world (m s.world).1 h k

  run_body-Undelivered :
      (now : ℕ) (body : Body) (who : Identity × Address) (s : Server v)
      → IsRefusal (respond (run_body v json digest repr ask cfg now body who s).0)
      → Undelivered v laws json s.world (run_body v json digest repr ask cfg now body who s).1.world
  unfolding run_body run_call
  run_body-Undelivered now not_json who s k = (λ b. refl, refl)
  run_body-Undelivered now not_dict who s k = (λ b. refl, refl)
  run_body-Undelivered now (call name falsy) (ident, addr) s k =
      on_world-Undelivered (dispatch v json cfg now ident addr (op_name name) []) s
        (dispatch-Undelivered v laws json cfg now ident addr [] (op_name name) s.world) k
  run_body-Undelivered now (call name (dict args)) (ident, addr) s k =
      on_world-Undelivered (dispatch v json cfg now ident addr (op_name name) args) s
        (dispatch-Undelivered v laws json cfg now ident addr args (op_name name) s.world) k
  run_body-Undelivered now (call name other) (ident, addr) s k = (λ b. refl, refl)

  entered-Undelivered :
      (now : ℕ) (body : Body) (c : Result (Problem Meta) (Identity × Address)) (s : Server v)
      → IsRefusal (respond (continue c (run_body v json digest repr ask cfg now body) s).0)
      → Undelivered v laws json s.world
          (continue c (run_body v json digest repr ask cfg now body) s).1.world
  entered-Undelivered now body (ok who) s k = run_body-Undelivered now body who s k
  entered-Undelivered now body (err p) s k = (λ b. refl, refl)

  -- The database is that of `s`.
  abbrev SameWorld : Server v → Server v → Type 0
  SameWorld s u = u.world ≡ s.world

  pub caller-world :
      (t : Times) (req : Request) (s : Server v)
      → (caller v json digest repr ask cfg t req s).1.world ≡ s.world
  unfolding caller authenticate
  caller-world t req s =
      let keys : Keeps (SameWorld s)
          (authenticate v json digest repr ask cfg t (header req.api_key)) =
        record { at = λ u h. unfold authenticate in h } in
      (Keeps-bind (authenticate v json digest repr ask cfg t (header req.api_key)) _ keys λ ident.
          let parsed : Result (Problem Meta) Address =
            map_err address (parse_agent_header ident.user_id (header req.agent)) in
          Keeps-bind (lift parsed) _ (Keeps-lift parsed) λ addr. Keeps-lift (ok (ident, addr))).at
        s refl

  on_problem-IsBarred : (f : AuthFailure) → IsBarred (status {Meta = Meta} (on_problem (auth f)))
  unfolding status on_problem
  on_problem-IsBarred (refused e) = auth_status-IsBarred e
  on_problem-IsBarred bad_body = inr (inl refl)

  -- The response where the key is not resolved.
  unresolved :
      (t : Times) (req : Request) (s : Server v) (f : AuthFailure)
      → (resolve digest repr ask cfg t.asked t.settled (header req.api_key) s.cache).0 ≡ err f
      → IsBarred (status (handle v json digest repr ask cfg t req s).0)
        × ((handle v json digest repr ask cfg t req s).1.world ≡ s.world)
  unfolding handle rpc caller authenticate respond
  unresolved t req s f h = rw h (on_problem-IsBarred f, refl)

  -- Whatever the body: where the key of a request is empty, or no identity rests on it, neither by
  -- the static keys, nor by a fresh entry of the cache, nor by an answer of the resolver that is
  -- neither a refusal nor an error, the request is answered with the status 401, 500, 502 or 503,
  -- and leaves the database as it is.
  pub handle-IsBarred :
      (t : Times) (req : Request) (s : Server v)
      → ((ident : Identity)
          → header req.api_key ≢ []
          → ¬ Rests digest repr ask cfg t.asked (header req.api_key) s.cache ident)
      → IsBarred (status (handle v json digest repr ask cfg t req s).0)
        × ((handle v json digest repr ask cfg t req s).1.world ≡ s.world)
  handle-IsBarred t req s none_vouches =
      elim (Result-cases
        (resolve digest repr ask cfg t.asked t.settled (header req.api_key) s.cache).0) [
          | inl (ident, q) ↦
              let (named, rests) =
                resolve_lem digest repr ask cfg t.asked t.settled (header req.api_key) s.cache ident
                  q in
              absurd (none_vouches ident named rests)
          | inr (f, q) ↦ unresolved t req s f q
        ]

  -- A request that is answered with an error other than 500 changes what no agent has to fetch, and
  -- publishes nothing.
  pub handle-Undelivered :
      (t : Times) (req : Request) (s : Server v)
      → status (handle v json digest repr ask cfg t req s).0 ≢ 200
      → status (handle v json digest repr ask cfg t req s).0 ≢ 500
      → Undelivered v laws json s.world (handle v json digest repr ask cfg t req s).1.world
  unfolding handle rpc
  handle-Undelivered t req s a b =
      subst (λ w. Undelivered v laws json w (handle v json digest repr ask cfg t req s).1.world)
        (caller-world t req s)
        (entered-Undelivered t.wall req.body (caller v json digest repr ask cfg t req s).0
          (caller v json digest repr ask cfg t req s).1 (a, b))
