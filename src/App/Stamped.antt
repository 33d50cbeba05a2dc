-- ===== src/App/Stamped.antt =====
-- What an answered request rests on.
use mathlib.Core.Path.{subst}
use muster_chat.Base.{
  ℕ, ◌≡◌, ◌≢◌, refl, sym, ap, ◌∙◌, [], ◌∷◌, Option, none, some, Result, ok, err, map_err, Text,
  join, All, arith, ok-injective,
}
use muster_chat.Base.Handlers.{after_reads, after_step, ended_alike}
use muster_chat.Valkey.{Valkey, Json}
use muster_chat.Identity.{slash, Address, parse_agent_header}
use muster_chat.Identity.Header.{IsSegment, client_half, parse_agent_header_sound}
use muster_chat.Auth.{Identity, Doc, refused, bad_body, Outcome, Cache, resolve}
use muster_chat.Auth.Resolved.{Rests, resolve_lem}
use muster_chat.Config.{Config}
use muster_chat.Store.Deliver.{World}
use muster_chat.Ops.Types.{Args, Failure, raised, crashed}
use muster_chat.Ops.Dispatch.{Reply, dispatch}
use muster_chat.App.{
  falsy, dict, other, Body, not_json, not_dict, call, Request, Times, Server, Problem, auth,
  address, unreadable, op, header, op_name, answer, on_problem, respond, authenticate, caller,
  on_world, run_call, run_body, rpc, handle,
}

-- The operation and the arguments that a body names.
abbrev pub asks : Body → Option (Text × Args)
asks not_json = none
asks not_dict = none
asks (call name falsy) = some (op_name name, [])
asks (call name (dict args)) = some (op_name name, args)
asks (call name other) = none

map_err-ok : {E F A : Type 0} (f : E → F) (r : Result E A) {a : A} → map_err f r ≡ ok a → r ≡ ok a
map_err-ok f (err e) h = absurd (ground arith)
map_err-ok f (ok a) h = ap ok (ok-injective h)

on_problem-ne-answer : {Meta : Type 0} (p : Problem Meta) (r : Reply Meta) → on_problem p ≢ answer r
unfolding on_problem
on_problem-ne-answer (auth (refused e)) r h = ground arith
on_problem-ne-answer (auth bad_body) r h = ground arith
on_problem-ne-answer (address e) r h = ground arith
on_problem-ne-answer unreadable r h = ground arith
on_problem-ne-answer (op (raised e)) r h = ground arith
on_problem-ne-answer (op (crashed e)) r h = ground arith

respond-answer :
    {Meta : Type 0} (x : Result (Problem Meta) (Reply Meta)) {r : Reply Meta}
    → respond x ≡ answer r
    → x ≡ ok r
unfolding respond
respond-answer (ok x) h = ap ok (cc h)
respond-answer (err p) {r} h = absurd (on_problem-ne-answer p r h)

module _ (v : Valkey) (json : Json) (digest : Text → Text) (repr : Doc → Text)
    (ask : Text → Text → Text → Outcome) (cfg : Config) where
  open json use {Meta}

  -- The caller is who the key stands for, at the address that the header names.
  pub record IsCaller (t : Times) (req : Request) (cache : Cache) (ident : Identity)
      (addr : Address) : Type 0 where
    pub keyed : header req.api_key ≢ []
    pub rests : Rests digest repr ask cfg t.asked (header req.api_key) cache ident
    pub stamped : addr.user ≡ ident.user_id
    pub named : join (slash ∷ []) (client_half addr) ≡ header req.agent
    pub whole : All IsSegment (client_half addr)

  authenticate-ok :
      (t : Times) (key : Text) (s u : Server v) (ident : Identity)
      → authenticate v json digest repr ask cfg t key s ≡ (ok ident, u)
      → ((resolve digest repr ask cfg t.asked t.settled key s.cache).0 ≡ ok ident)
        × (u.world ≡ s.world)
  unfolding authenticate
  authenticate-ok t key s u ident h =
      (map_err-ok auth _ (ap (λ p. p.0) h), sym (ap (λ p. p.1.world) h))

  pub caller_sound :
      (t : Times) (req : Request) (s s' : Server v) (who : Identity × Address)
      → caller v json digest repr ask cfg t req s ≡ (ok who, s')
      → IsCaller t req s.cache who.0 who.1 × (s'.world ≡ s.world)
  unfolding caller
  caller_sound t req s s' who h =
      after_step {C = IsCaller t req s.cache who.0 who.1 × (s'.world ≡ s.world)}
        (authenticate v json digest repr ask cfg t (header req.api_key)) _ s h
        λ ident u q l.
          after_reads (map_err address (parse_agent_header ident.user_id (header req.agent))) _ u l
            λ addr e k.
              let (resolved, kept) = authenticate-ok t (header req.api_key) s u ident q in
              let (keyed, rests) =
                resolve_lem digest repr ask cfg t.asked t.settled (header req.api_key) s.cache ident
                  resolved in
              let (stamped, named, whole) =
                parse_agent_header_sound ident.user_id (header req.agent)
                  (map_err-ok address _ e) in
              let (same, same_state) = ended_alike {E = Problem Meta} (ident, addr) who u s' k in
              (
                subst (λ w. IsCaller t req s.cache w.0 w.1) same
                    (record {
                      keyed = keyed;
                      rests = rests;
                      stamped = stamped;
                      named = named;
                      whole = whole;
                    }),
                sym (ap (λ z. z.world) same_state) ∙ kept,
              )

  on_world-ok :
      {A : Type 0} (m : World v → Result (Failure Meta) A × World v) (s s' : Server v) (a : A)
      → on_world v json digest repr ask cfg m s ≡ (ok a, s')
      → m s.world ≡ (ok a, s'.world)
  unfolding on_world
  on_world-ok m s s' a h =
      let r = map_err-ok op (m s.world).0 (ap (λ p. p.0) h) in
      let w = ap (λ p. p.1.world) h in λ i. (r i, w i)

  run_body-ok :
      (now : ℕ) (body : Body) (who : Identity × Address) (s s' : Server v) (r : Reply Meta)
      → run_body v json digest repr ask cfg now body who s ≡ (ok r, s')
      → (name : Text) × (args : Args) × (asks body ≡ some (name, args))
        × (dispatch v json cfg now who.0 who.1 name args s.world ≡ (ok r, s'.world))
  unfolding run_body run_call
  run_body-ok now not_json who s s' r h = absurd (ground arith)
  run_body-ok now not_dict who s s' r h = absurd (ground arith)
  run_body-ok now (call name falsy) (ident, addr) s s' r h = (
    op_name name,
    [],
    refl,
    on_world-ok (dispatch v json cfg now ident addr (op_name name) []) s s' r h,
  )
  run_body-ok now (call name (dict args)) (ident, addr) s s' r h = (
    op_name name,
    args,
    refl,
    on_world-ok (dispatch v json cfg now ident addr (op_name name) args) s s' r h,
  )
  run_body-ok now (call name other) (ident, addr) s s' r h = absurd (ground arith)

  -- What an answer to a request means: the caller is who the key stands for, at the address of the
  -- header, and the answer is that of the operation that the body names, with these two.
  abbrev pub Answered : Times → Request → Server v → Reply Meta → Server v → Type 0
  Answered t req s r s' =
      (ident : Identity) × (addr : Address) × IsCaller t req s.cache ident addr
      × (name : Text) × (args : Args) × (asks req.body ≡ some (name, args))
      × (dispatch v json cfg t.wall ident addr name args s.world ≡ (ok r, s'.world))

  rpc-ok :
      (t : Times) (req : Request) (s s' : Server v) (r : Reply Meta)
      → rpc v json digest repr ask cfg t req s ≡ (ok r, s')
      → Answered t req s r s'
  unfolding rpc
  rpc-ok t req s s' r h =
      after_step {C = Answered t req s r s'} (caller v json digest repr ask cfg t req) _ s h
        λ who u q l.
          let (is_caller, same) = caller_sound t req s u who q in
          let (name, args, asked, ran) = run_body-ok t.wall req.body who u s' r l in
          (
            who.0,
            who.1,
            is_caller,
            name,
            args,
            asked,
            subst (λ w. dispatch v json cfg t.wall who.0 who.1 name args w ≡ (ok r, s'.world)) same
                ran,
          )

  -- Every request that is answered has a key, and is run for the identity that this key stands for,
  -- by the static keys, a fresh entry of the cache or the resolver, at the address whose user is
  -- that identity's and whose other segments make up the header; the answer and the change of the
  -- database are those of the operation that the body names.
  pub handle_sound :
      (t : Times) (req : Request) (s s' : Server v) (r : Reply Meta)
      → handle v json digest repr ask cfg t req s ≡ (answer r, s')
      → Answered t req s r s'
  unfolding handle
  handle_sound t req s s' r h =
      let x = respond-answer (rpc v json digest repr ask cfg t req s).0 (ap (λ p. p.0) h) in
      let w = ap (λ p. p.1) h in rpc-ok t req s s' r (λ i. (x i, w i))
