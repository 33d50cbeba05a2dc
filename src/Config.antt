-- ===== src/Config.antt =====
-- server/muster_api/config.py: the settings of a server, where none of the numbers is negative. Load has
-- the settings as they are read, which may be negative.
pub mod Load
pub mod Loaded
use muster_chat.Base.{ℕ, List, Option, Text}

-- An entry of `static_keys`.
pub record StaticKey : Type 0 where
  pub user_id : Text
  pub groups : List Text

pub record Config : Type 0 where
  pub valkey_url : Text
  pub resolver_url : Option Text
  pub resolver_header : Text
  pub user_field : Text
  pub groups_field : Text
  pub static_keys : List (Text × StaticKey)
  pub auth_cache_ttl : ℕ
  pub message_ttl : ℕ
  pub agent_retention : ℕ
  pub inbox_maxlen : ℕ
  pub chat_rate : ℕ
  pub announce_rate : ℕ
  pub rate_window : ℕ
  pub body_max : ℕ
  pub ping_interval : ℕ
  pub presence_ttl : ℕ
