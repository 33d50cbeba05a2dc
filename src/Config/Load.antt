-- ===== src/Config/Load.antt =====
-- `load`: the settings from the environment, whose numbers may be negative. What `json.loads` makes of
-- the static keys is a parameter.
use muster_chat.Base.{
  Bool, true, false, List, Option, none, some, Result, ok, err, ◌>>=◌, ℤ, pos, negsuc, Text, Fields,
  codes, int_of_text, lookup, ltb, is_empty, if◌then◌else◌,
}
use muster_chat.Config.{StaticKey}

-- a `ValueError`: of `int`, of `json.loads` or of `load`
pub data LoadError : Type 0 where
  value_error : LoadError

-- `class Config`, as `load` makes it
pub record Settings : Type 0 where
  pub valkey_url : Text
  pub resolver_url : Option Text
  pub resolver_header : Text
  pub user_field : Text
  pub groups_field : Text
  pub static_keys : List (Text × StaticKey)
  pub auth_cache_ttl : ℤ
  pub message_ttl : ℤ
  pub agent_retention : ℤ
  pub inbox_maxlen : ℤ
  pub chat_rate : ℤ
  pub announce_rate : ℤ
  pub rate_window : ℤ
  pub body_max : ℤ
  pub ping_interval : ℤ
  pub presence_ttl : ℤ

-- `env.get(k, default)`
unfoldable pub env_or : Text → Text → Fields → Text
env_or k default env = elim (lookup k env) [ none ↦ default | some t ↦ t ]

-- `env.get(k) or None`
unfoldable pub env_set : Text → Fields → Option Text
env_set k env = elim (lookup k env) [ none ↦ none | some t ↦ if is_empty t then none else some t ]

-- `int(env.get(k, default))`
unfoldable pub setting : Text → Text → Fields → Result LoadError ℤ
unfolding env_or
setting k default env = elim (int_of_text (env_or k default env)) [
  | none ↦ err value_error
  | some z ↦ ok z
]

-- `x < y`
unfoldable pub below : ℤ → ℤ → Bool
below (pos m) (pos n) = ltb m n
below (pos m) (negsuc n) = false
below (negsuc m) (pos n) = true
below (negsuc m) (negsuc n) = ltb n m

-- the record, once the static keys are read
unfoldable pub settings_of : Fields → List (Text × StaticKey) → Result LoadError Settings
unfolding setting env_or env_set
settings_of env static_keys = do
  auth_cache_ttl ← setting (codes "MUSTER_AUTH_CACHE_TTL") (codes "60") env
  message_ttl ← setting (codes "MUSTER_MESSAGE_TTL") (codes "259200") env
  agent_retention ← setting (codes "MUSTER_AGENT_RETENTION") (codes "604800") env
  inbox_maxlen ← setting (codes "MUSTER_INBOX_MAXLEN") (codes "1000") env
  chat_rate ← setting (codes "MUSTER_CHAT_RATE") (codes "20") env
  announce_rate ← setting (codes "MUSTER_ANNOUNCE_RATE") (codes "3") env
  rate_window ← setting (codes "MUSTER_RATE_WINDOW") (codes "60") env
  body_max ← setting (codes "MUSTER_BODY_MAX") (codes "262144") env
  ping_interval ← setting (codes "MUSTER_PING_INTERVAL") (codes "15") env
  presence_ttl ← setting (codes "MUSTER_PRESENCE_TTL") (codes "60") env
  ok (record {
    valkey_url = env_or (codes "MUSTER_VALKEY_URL") (codes "redis://localhost:6379/1") env;
    resolver_url = env_set (codes "MUSTER_RESOLVER_URL") env;
    resolver_header = env_or (codes "MUSTER_RESOLVER_HEADER") (codes "x-litellm-api-key") env;
    user_field = env_or (codes "MUSTER_USER_FIELD") (codes "user_id") env;
    groups_field = env_or (codes "MUSTER_GROUPS_FIELD") (codes "teams") env;
    static_keys = static_keys;
    auth_cache_ttl = auth_cache_ttl;
    message_ttl = message_ttl;
    agent_retention = agent_retention;
    inbox_maxlen = inbox_maxlen;
    chat_rate = chat_rate;
    announce_rate = announce_rate;
    rate_window = rate_window;
    body_max = body_max;
    ping_interval = ping_interval;
    presence_ttl = presence_ttl;
  })

-- the last test of `load`
unfoldable pub checked : Settings → Result LoadError Settings
checked cfg = if below cfg.agent_retention cfg.message_ttl then err value_error else ok cfg

-- `load`, where `loads` gives the entries of the static keys, `none` for a text that is not JSON
unfoldable pub load : (Text → Option (List (Text × StaticKey))) → Fields → Result LoadError Settings
unfolding settings_of checked
load loads env = elim (loads (env_or (codes "MUSTER_STATIC_KEYS") (codes "{}") env)) [
  | none ↦ err value_error
  | some static_keys ↦ settings_of env static_keys >>= checked
]
