-- ===== src/Auth.antt =====
-- server/muster_api/auth.py: who a caller is. The resolver and the digest of a key are parameters, and
-- the proofs are in the child.
pub mod Resolved
use muster_chat.Base.{
  ℕ, ◌+◌, Bool, true, false, ◌||◌, List, [], ◌∷◌, Option, none, some, Result, ok, err, ℤ, pos,
  negsuc, zero, suc, Text, codes, ◌==◌, eqb, leb, ltb, is_empty, split, decimal, if◌then◌else◌,
}
use muster_chat.Config.{Config, StaticKey}

-- `class Identity`
pub record Identity : Type 0 where
  pub user_id : Text
  pub groups : List Text

-- A JSON document of the resolver, whose lists hold texts and whose numbers are integers.
mutual
  pub data Doc : Type 0 where
    null : Doc
    bool : Bool → Doc
    int : ℤ → Doc
    text : Text → Doc
    texts : List Text → Doc
    dict : Members → Doc

  pub data Members : Type 0 where
    empty : Members
    member : Text → Doc → Members → Members

-- `obj[k]` of a dictionary
unfoldable pub value_at : Text → Members → Option Doc
value_at k empty = none
value_at k (member j d ms) = let rest = value_at k ms in if j == k then some d else rest

-- `obj[k]`; `none` is a `KeyError` or a `TypeError`
unfoldable pub dig_one : Text → Doc → Option Doc
dig_one k (dict ms) = value_at k ms
dig_one k d = none

-- the loop of `_dig`
unfoldable pub dig : List Text → Doc → Option Doc
dig [] d = some d
dig (k ∷ ks) d = elim (dig_one k d) [ none ↦ none | some e ↦ dig ks e ]

-- `str(z)`
signed : ℤ → Text
signed (pos n) = decimal n
signed (negsuc n) = b'-' ∷ decimal (suc n)

-- `str(d)`, with the text of a list or of a dictionary as a parameter
unfoldable pub str : (Doc → Text) → Doc → Text
unfolding signed
str repr null = codes "None"
str repr (bool b) = if b then codes "True" else codes "False"
str repr (int z) = signed z
str repr (text t) = t
str repr d = repr d

abbrev singles : Text → List Text
singles [] = []
singles (c ∷ t) = (c ∷ []) ∷ singles t

abbrev keys : Members → List Text
keys empty = []
keys (member k d ms) = k ∷ keys ms

-- `tuple(d or ())`; `none` is a `TypeError`
unfoldable pub tuple_of : Doc → Option (List Text)
tuple_of null = some []
tuple_of (bool b) = if b then none else some []
tuple_of (int (pos zero)) = some []
tuple_of (int z) = none
tuple_of (text t) = some (singles t)
tuple_of (texts ts) = some ts
tuple_of (dict ms) = some (keys ms)

-- `class AuthError`, by its code and its reason
pub data AuthError : Type 0 where
  missing_key no_resolver resolver_unavailable key_refused resolver_schema : AuthError

unfoldable pub auth_status : AuthError → ℕ
auth_status resolver_unavailable = 503
auth_status resolver_schema = 502
auth_status e = 401

-- an error of the caller, or a body that is not JSON, which nothing catches
pub data AuthFailure : Type 0 where
  refused : AuthError → AuthFailure
  bad_body : AuthFailure

-- What becomes of a request to the resolver: an `HTTPError`, or a status and a body.
pub data Outcome : Type 0 where
  unreachable : Outcome
  answered : (status : ℕ) (body : Option Doc) → Outcome

-- A cached identity, and until when it is fresh.
pub record Cached : Type 0 where
  pub ident : Identity
  pub fresh_until : ℕ

abbrev pub Cache : Type 0
Cache = List (Text × Cached)

-- `_cache.get(kh)`
unfoldable pub cached : Text → Cache → Option Cached
cached kh [] = none
cached kh ((k, c) ∷ cache) = let rest = cached kh cache in if k == kh then some c else rest

-- `_cache.pop(kh, None)`
unfoldable pub without : Text → Cache → Cache
without kh [] = []
without kh ((k, c) ∷ cache) = let rest = without kh cache in if k == kh then rest else (k, c) ∷ rest

-- `_cache[kh] = c`
unfoldable pub with_cached : Text → Cached → Cache → Cache
unfolding without
with_cached kh c cache = (kh, c) ∷ without kh cache

-- `key in static_keys`, and its entry
unfoldable pub static_entry : Text → List (Text × StaticKey) → Option StaticKey
static_entry key [] = none
static_entry key ((k, e) ∷ es) = let rest = static_entry key es in if k == key then some e else rest

-- `if hit and hit[1] > time.monotonic()`
unfoldable pub fresh : ℕ → Option Cached → Option Identity
fresh now none = none
fresh now (some c) = if ltb now c.fresh_until then some c.ident else none

-- the two fields that are read from a document
unfoldable pub identity_of : (Doc → Text) → Config → Doc → Option Identity
unfolding dig str tuple_of
identity_of repr cfg d = elim (dig (split b'.' cfg.user_field) d) [
  | none ↦ none
  | some u ↦ elim (dig (split b'.' cfg.groups_field) d) [
    | none ↦ none
    | some g ↦ elim (tuple_of g) [
      | none ↦ none
      | some gs ↦ some (record { user_id = str repr u; groups = gs })
    ]
  ]
]

abbrev pub is_refusal : ℕ → Bool
is_refusal status = eqb status 400 || (eqb status 401 || eqb status 403)

module _ (digest : Text → Text) (repr : Doc → Text) (ask : Text → Text → Text → Outcome)
    (cfg : Config) where
  -- what a document is made into
  unfoldable pub accept : Text → ℕ → Option Doc → Cache → Result AuthFailure Identity × Cache
  accept kh later none cache = (err bad_body, cache)
  accept kh later (some d) cache = elim (identity_of repr cfg d) [
    | none ↦ (err (refused resolver_schema), cache)
    | some ident ↦ (
      ok ident,
      with_cached kh (record { ident = ident; fresh_until = later + cfg.auth_cache_ttl }) cache,
    )
  ]

  -- what is made of the outcome of the request
  unfoldable pub settle : Text → ℕ → Outcome → Cache → Result AuthFailure Identity × Cache
  settle kh later unreachable cache = (err (refused resolver_unavailable), cache)
  settle kh later (answered status body) cache =
      if is_refusal status
      then (err (refused key_refused), without kh cache)
      else if leb 500 status
      then (err (refused resolver_unavailable), cache)
      else accept kh later body cache

  -- where neither the static keys nor the cache know the key
  unfoldable pub ask_resolver : ℕ → Text → Option Text → Cache → Result AuthFailure Identity × Cache
  ask_resolver later key none cache = (err (refused no_resolver), cache)
  ask_resolver later key (some []) cache = (err (refused no_resolver), cache)
  ask_resolver later key (some (c ∷ url)) cache =
      settle (digest key) later (ask (c ∷ url) cfg.resolver_header key) cache

  -- `resolve`, at the time `now`, whose request has its outcome at the time `later`
  unfoldable pub resolve : ℕ → ℕ → Text → Cache → Result AuthFailure Identity × Cache
  resolve now later [] cache = (err (refused missing_key), cache)
  resolve now later (c ∷ key) cache = elim (static_entry (c ∷ key) cfg.static_keys) [
    | some e ↦ (ok (record { user_id = e.user_id; groups = e.groups }), cache)
    | none ↦ elim (fresh now (cached (digest (c ∷ key)) cache)) [
      | some ident ↦ (ok ident, cache)
      | none ↦ ask_resolver later (c ∷ key) cfg.resolver_url cache
    ]
  ]
