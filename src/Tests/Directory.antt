-- ===== src/Tests/Directory.antt =====
-- The directory with one agent, which is not online.
use muster_chat.Base.{
  ◌≡◌, refl, [], ◌∷◌, ok, pos, Text, codes, In, ◌==◌, lookup, decimal, int_of_text, strip, arith,
}
use muster_chat.Valkey.Memory.{memory, plain_json, nothing, Store}
use muster_chat.Valkey.Memory.Lawful.{memory_laws}
use muster_chat.Identity.{address_text}
use muster_chat.Store.Keys.{agents_key, agent_key, presence_key}
use muster_chat.Store.Agents.{
  Row, offline, list_agents, sorted, register_agent, text_leb, row_at, row_of, agent_fields, rows,
  item, item_or, int_item,
}
use muster_chat.Store.Agents.Listing.{row_now, list_agents-register_agent}
use muster_chat.Tests.Samples.{desk}

abbrev alone : Store
alone = register_agent memory plain_json 7 desk (codes "ops" ∷ []) [] 1000 nothing

abbrev desk_only : Row Text
desk_only = record {
  addr = codes "ann/desk/cc/web/1";
  user = codes "ann";
  host = codes "desk";
  runtime = codes "cc";
  project = codes "web";
  session = codes "1";
  groups = codes "ops" ∷ [];
  meta = [];
  last_connect = pos 7;
  status = offline;
}

alone_listed : list_agents memory plain_json alone ≡ ok (desk_only ∷ [])
unfolding list_agents sorted register_agent agents_key agent_key presence_key ◌==◌ text_leb
    address_text row_at row_of agent_fields lookup decimal int_of_text strip rows item item_or
    int_item
alone_listed = refl

list_agents-register_agent_example :
    In
      (row_now memory memory_laws plain_json 7 desk (codes "ops" ∷ []) [] 1000 alone)
      (desk_only ∷ [])
list_agents-register_agent_example =
    list_agents-register_agent memory memory_laws plain_json 7 desk (codes "ops" ∷ []) [] 1000
      nothing (desk_only ∷ []) (omega arith) alone_listed
