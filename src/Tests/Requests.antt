-- ===== src/Tests/Requests.antt =====
-- An inbox with nothing in it.
use muster_chat.Base.{◌≡◌, refl, [], codes, ◌==◌}
use muster_chat.Valkey.Memory.{memory}
use muster_chat.Valkey.Memory.Lawful.{memory_laws}
use muster_chat.Store.Keys.{agents_key, agent_key, presence_key, inbox_key, cursor_key}
use muster_chat.Store.Presence.{touch_presence}
use muster_chat.Store.Agents.{register_agent}
use muster_chat.Store.Inbox.Fetch.{unread}
use muster_chat.Tests.Samples.{both}

pub lab_empty : unread memory memory_laws (codes "ann/lab/cc/web/2") both.db ≡ []
unfolding touch_presence register_agent presence_key agent_key agents_key cursor_key inbox_key ◌==◌
lab_empty = refl
