-- ===== src/Config/Loaded.antt =====
-- What the settings are that `load` of server/muster_api/config.py gives, variable by variable.
use mathlib.Core.Path.{subst}
use muster_chat.Base.{
  ℕ, ◌≤◌, ◌≡◌, ◌≢◌, ◌⊎◌, refl, false, List, [], ◌∷◌, Option, none, some, ok, >>=-eq-ok,
  ok-injective, ℤ, pos, negsuc, Text, Fields, codes, int_of_text, strip, lookup, Bool-cases,
  Option-cases, sym, ap, ◌∙◌, inl, inr, arith,
}
use muster_chat.Config.{StaticKey}
use muster_chat.Config.Load.{Settings, env_or, env_set, setting, below, settings_of, checked, load}

-- What a number is: that of the variable, read by `int`, or the default where it is not set.
abbrev IsNumber : Fields → Text → ℕ → ℤ → Type 0
IsNumber env name default z =
    ((lookup name env ≡ none) × (z ≡ pos default))
    ⊎ ((t : Text) × (lookup name env ≡ some t) × (int_of_text t ≡ some z))

-- What a text is: that of the variable, or the default where it is not set.
abbrev IsTextOf : Fields → Text → Text → Text → Type 0
IsTextOf env name default t =
    ((lookup name env ≡ none) × (t ≡ default)) ⊎ (lookup name env ≡ some t)

-- What the URL is: that of the variable, unless it is empty.
abbrev IsUrl : Fields → Text → Option Text → Type 0
IsUrl env name url =
    ((t : Text) × (lookup name env ≡ some t) × (t ≢ []) × (url ≡ some t))
    ⊎ (((lookup name env ≡ none) ⊎ (lookup name env ≡ some [])) × (url ≡ none))

-- the order of the integers
abbrev pub AtMost : ℤ → ℤ → Type 0
AtMost (pos m) (pos n) = m ≤ n
AtMost (pos m) (negsuc n) = ⊥
AtMost (negsuc m) (pos n) = Unit
AtMost (negsuc m) (negsuc n) = n ≤ m

-- What settings that are loaded are.
pub record IsLoaded (loads : Text → Option (List (Text × StaticKey))) (env : Fields)
    (cfg : Settings) : Type 0 where
  pub valkey_url :
      IsTextOf env (codes "MUSTER_VALKEY_URL") (codes "redis://localhost:6379/1") cfg.valkey_url
  pub resolver_url : IsUrl env (codes "MUSTER_RESOLVER_URL") cfg.resolver_url
  pub resolver_header :
      IsTextOf env (codes "MUSTER_RESOLVER_HEADER") (codes "x-litellm-api-key") cfg.resolver_header
  pub user_field : IsTextOf env (codes "MUSTER_USER_FIELD") (codes "user_id") cfg.user_field
  pub groups_field : IsTextOf env (codes "MUSTER_GROUPS_FIELD") (codes "teams") cfg.groups_field
  pub static_keys :
      (t : Text) × IsTextOf env (codes "MUSTER_STATIC_KEYS") (codes "{}") t
      × (loads t ≡ some cfg.static_keys)
  pub auth_cache_ttl : IsNumber env (codes "MUSTER_AUTH_CACHE_TTL") 60 cfg.auth_cache_ttl
  pub message_ttl : IsNumber env (codes "MUSTER_MESSAGE_TTL") 259200 cfg.message_ttl
  pub agent_retention : IsNumber env (codes "MUSTER_AGENT_RETENTION") 604800 cfg.agent_retention
  pub inbox_maxlen : IsNumber env (codes "MUSTER_INBOX_MAXLEN") 1000 cfg.inbox_maxlen
  pub chat_rate : IsNumber env (codes "MUSTER_CHAT_RATE") 20 cfg.chat_rate
  pub announce_rate : IsNumber env (codes "MUSTER_ANNOUNCE_RATE") 3 cfg.announce_rate
  pub rate_window : IsNumber env (codes "MUSTER_RATE_WINDOW") 60 cfg.rate_window
  pub body_max : IsNumber env (codes "MUSTER_BODY_MAX") 262144 cfg.body_max
  pub ping_interval : IsNumber env (codes "MUSTER_PING_INTERVAL") 15 cfg.ping_interval
  pub presence_ttl : IsNumber env (codes "MUSTER_PRESENCE_TTL") 60 cfg.presence_ttl
  pub retained : AtMost cfg.message_ttl cfg.agent_retention

setting-IsNumber :
    (name digits : Text) (default : ℕ) (env : Fields) (z : ℤ)
    → int_of_text digits ≡ some (pos default)
    → setting name digits env ≡ ok z
    → IsNumber env name default z
unfolding setting env_or
setting-IsNumber name digits default env z d h = elim (Option-cases (lookup name env)) [
  | inl q ↦ inl (q, ok-injective (sym (rw (setting, env_or, q, d) at h)))
  | inr (t, q) ↦ elim (Option-cases (int_of_text t)) [
    | inl r ↦ absurd (ground (arith, rw (setting, env_or, q, r) at h))
    | inr (y, r) ↦ inr (t, q, r ∙ ap some (ok-injective (rw (setting, env_or, q, r) at h)))
  ]
]

env_or-IsTextOf :
    (name default : Text) (env : Fields) → IsTextOf env name default (env_or name default env)
unfolding env_or
env_or-IsTextOf name default env = elim (Option-cases (lookup name env)) [
  | inl q ↦ inl (q, rw (env_or, q) refl)
  | inr (t, q) ↦ inr (rw (env_or, q) refl)
]

env_set-IsUrl : (name : Text) (env : Fields) → IsUrl env name (env_set name env)
unfolding env_set
env_set-IsUrl name env = elim (Option-cases (lookup name env)) [
  | inl q ↦ inr (inl q, rw (env_set, q) refl)
  | inr ([], q) ↦ inr (inr q, rw (env_set, q) refl)
  | inr (c ∷ t, q) ↦ inl (c ∷ t, q, λ e. ground arith, rw (env_set, q) refl)
]

below-AtMost : (m n : ℤ) → below n m ≡ false → AtMost m n
unfolding below
below-AtMost (pos m) (pos n) h = ground arith
below-AtMost (pos m) (negsuc n) h = absurd (ground arith)
below-AtMost (negsuc m) (pos n) h = tt
below-AtMost (negsuc m) (negsuc n) h = ground arith

checked-ok :
    (cfg out : Settings)
    → checked cfg ≡ ok out
    → (cfg ≡ out) × AtMost cfg.message_ttl cfg.agent_retention
unfolding checked
checked-ok cfg out h = elim (Bool-cases (below cfg.agent_retention cfg.message_ttl)) [
  | inl q ↦ absurd (ground (arith, rw q at h))
  | inr q ↦ (ok-injective (rw q at h), below-AtMost cfg.message_ttl cfg.agent_retention q)
]

settings_of-IsLoaded :
    (loads : Text → Option (List (Text × StaticKey))) (env : Fields)
    (keys : List (Text × StaticKey)) (cfg : Settings)
    → loads (env_or (codes "MUSTER_STATIC_KEYS") (codes "{}") env) ≡ some keys
    → settings_of env keys ≡ ok cfg
    → AtMost cfg.message_ttl cfg.agent_retention
    → IsLoaded loads env cfg
unfolding settings_of int_of_text strip
settings_of-IsLoaded loads env keys cfg from h kept =
    let (z0, e0, h0) = >>=-eq-ok (setting (codes "MUSTER_AUTH_CACHE_TTL") (codes "60") env) _ h in
    let (z1, e1, h1) = >>=-eq-ok (setting (codes "MUSTER_MESSAGE_TTL") (codes "259200") env) _ h0 in
    let (z2, e2, h2) =
      >>=-eq-ok (setting (codes "MUSTER_AGENT_RETENTION") (codes "604800") env) _ h1 in
    let (z3, e3, h3) = >>=-eq-ok (setting (codes "MUSTER_INBOX_MAXLEN") (codes "1000") env) _ h2 in
    let (z4, e4, h4) = >>=-eq-ok (setting (codes "MUSTER_CHAT_RATE") (codes "20") env) _ h3 in
    let (z5, e5, h5) = >>=-eq-ok (setting (codes "MUSTER_ANNOUNCE_RATE") (codes "3") env) _ h4 in
    let (z6, e6, h6) = >>=-eq-ok (setting (codes "MUSTER_RATE_WINDOW") (codes "60") env) _ h5 in
    let (z7, e7, h7) = >>=-eq-ok (setting (codes "MUSTER_BODY_MAX") (codes "262144") env) _ h6 in
    let (z8, e8, h8) = >>=-eq-ok (setting (codes "MUSTER_PING_INTERVAL") (codes "15") env) _ h7 in
    let (z9, e9, h9) = >>=-eq-ok (setting (codes "MUSTER_PRESENCE_TTL") (codes "60") env) _ h8 in
    let same = ok-injective h9 in
    subst (λ c. IsLoaded loads env c) same
      (record {
        valkey_url =
            env_or-IsTextOf (codes "MUSTER_VALKEY_URL") (codes "redis://localhost:6379/1") env;
        resolver_url = env_set-IsUrl (codes "MUSTER_RESOLVER_URL") env;
        resolver_header =
            env_or-IsTextOf (codes "MUSTER_RESOLVER_HEADER") (codes "x-litellm-api-key") env;
        user_field = env_or-IsTextOf (codes "MUSTER_USER_FIELD") (codes "user_id") env;
        groups_field = env_or-IsTextOf (codes "MUSTER_GROUPS_FIELD") (codes "teams") env;
        static_keys = (
          env_or (codes "MUSTER_STATIC_KEYS") (codes "{}") env,
          env_or-IsTextOf (codes "MUSTER_STATIC_KEYS") (codes "{}") env,
          from,
        );
        auth_cache_ttl =
            setting-IsNumber (codes "MUSTER_AUTH_CACHE_TTL") (codes "60") 60 env z0 refl e0;
        message_ttl =
            setting-IsNumber (codes "MUSTER_MESSAGE_TTL") (codes "259200") 259200 env z1 refl e1;
        agent_retention =
            setting-IsNumber (codes "MUSTER_AGENT_RETENTION") (codes "604800") 604800 env z2 refl
              e2;
        inbox_maxlen =
            setting-IsNumber (codes "MUSTER_INBOX_MAXLEN") (codes "1000") 1000 env z3 refl e3;
        chat_rate = setting-IsNumber (codes "MUSTER_CHAT_RATE") (codes "20") 20 env z4 refl e4;
        announce_rate =
            setting-IsNumber (codes "MUSTER_ANNOUNCE_RATE") (codes "3") 3 env z5 refl e5;
        rate_window = setting-IsNumber (codes "MUSTER_RATE_WINDOW") (codes "60") 60 env z6 refl e6;
        body_max =
            setting-IsNumber (codes "MUSTER_BODY_MAX") (codes "262144") 262144 env z7 refl e7;
        ping_interval =
            setting-IsNumber (codes "MUSTER_PING_INTERVAL") (codes "15") 15 env z8 refl e8;
        presence_ttl =
            setting-IsNumber (codes "MUSTER_PRESENCE_TTL") (codes "60") 60 env z9 refl e9;
        retained = subst (λ c. AtMost c.message_ttl c.agent_retention) (sym same) kept;
      })

-- Settings that load have for each of the five texts, for the static keys and for each of the ten
-- numbers the value of the variable that the record names, or the default where it is not set; the
-- URL of the resolver is none where its variable is empty or not set; and a message is kept for at
-- most as long as an agent.
pub load-IsLoaded :
    (loads : Text → Option (List (Text × StaticKey))) (env : Fields) (cfg : Settings)
    → load loads env ≡ ok cfg
    → IsLoaded loads env cfg
unfolding load
load-IsLoaded loads env cfg h =
    elim (Option-cases (loads (env_or (codes "MUSTER_STATIC_KEYS") (codes "{}") env))) [
      | inl q ↦ absurd (ground (arith, rw (load, q) at h))
      | inr (keys, q) ↦
          let (made, r, c) = >>=-eq-ok (settings_of env keys) checked (rw (load, q) at h) in
          let (same, kept) = checked-ok made cfg c in
          subst (λ s. IsLoaded loads env s) same (settings_of-IsLoaded loads env keys made q r kept)
    ]
