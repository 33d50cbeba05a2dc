-- ===== src/Tests/Samples.antt =====
-- Two agents of one user, as they are registered and online.
use muster_chat.Base.{
  ◌≡◌, refl, List, [], ◌∷◌, none, Text, codes, ok, pos, ◌==◌, lookup, decimal, int_of_text, strip,
}
use muster_chat.Valkey.Memory.{memory, plain_json, nothing, Store}
use muster_chat.Identity.{Address, address_text, visible}
use muster_chat.Auth.{Identity}
use muster_chat.Config.{Config}
use muster_chat.Store.Agents.{
  Row, online, list_agents, sorted, register_agent, text_leb, row_at, row_of, agent_fields, rows,
  item, item_or, int_item,
}
use muster_chat.Store.Keys.{agents_key, agent_key, presence_key}
use muster_chat.Store.Presence.{touch_presence}
use muster_chat.Store.Deliver.{World}
use muster_chat.Ops.Types.{Args, text}
use muster_chat.Ops.Checks.{visible_agents, sees, seen}

abbrev pub settings : Config
settings = record {
  valkey_url = [];
  resolver_url = none;
  resolver_header = [];
  user_field = [];
  groups_field = [];
  static_keys = (codes "s3", record { user_id = codes "ann"; groups = codes "ops" ∷ [] }) ∷ [];
  auth_cache_ttl = 60;
  message_ttl = 100;
  agent_retention = 1000;
  inbox_maxlen = 10;
  chat_rate = 5;
  announce_rate = 2;
  rate_window = 60;
  body_max = 64;
  ping_interval = 30;
  presence_ttl = 90;
}

abbrev pub ann : Identity
ann = record { user_id = codes "ann"; groups = codes "ops" ∷ [] }

abbrev pub desk : Address
desk = record {
  user = codes "ann";
  host = codes "desk";
  runtime = codes "cc";
  project = codes "web";
  session = codes "1";
}

abbrev pub lab : Address
lab = record {
  user = codes "ann";
  host = codes "lab";
  runtime = codes "cc";
  project = codes "web";
  session = codes "2";
}

abbrev pub joined : Address → Store → Store
joined a db =
    touch_presence memory 7 (address_text a) (codes "c") 90
      (register_agent memory plain_json 7 a [] [] 1000 db)

abbrev pub both : World memory
both = record { db = joined lab (joined desk nothing); sent = [] }

abbrev pub hello : Args
hello = (codes "to", text (codes "lab")) ∷ (codes "body", text (codes "hello")) ∷ []

abbrev pub shout : Args
shout =
    (codes "scope", text (codes "user:ann"))
    ∷ (codes "project", text (codes "web"))
    ∷ (codes "body", text (codes "build"))
    ∷ []

abbrev pub desk_row : Row Text
desk_row = record {
  addr = codes "ann/desk/cc/web/1";
  user = codes "ann";
  host = codes "desk";
  runtime = codes "cc";
  project = codes "web";
  session = codes "1";
  groups = [];
  meta = [];
  last_connect = pos 7;
  status = online;
}

abbrev pub lab_row : Row Text
lab_row = record {
  addr = codes "ann/lab/cc/web/2";
  user = codes "ann";
  host = codes "lab";
  runtime = codes "cc";
  project = codes "web";
  session = codes "2";
  groups = [];
  meta = [];
  last_connect = pos 7;
  status = online;
}

abbrev pub pair : List (Row Text)
pair = desk_row ∷ lab_row ∷ []

pub both_seen : visible_agents memory plain_json ann both ≡ ok pair
unfolding visible_agents list_agents sorted touch_presence register_agent agents_key agent_key
    presence_key ◌==◌ text_leb address_text row_at row_of agent_fields lookup decimal int_of_text
    strip visible sees seen rows item item_or int_item
both_seen = refl
