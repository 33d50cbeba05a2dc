-- ===== src/Tests/Reaping.antt =====
-- A round of the reaper, where the hash of one of two agents has expired.
use muster_chat.Base.{◌≡◌, refl, true, false, Text, codes, ◌==◌}
use muster_chat.Valkey.Memory.{memory, nothing, Store}
use muster_chat.Valkey.Memory.Lawful.{memory_laws}
use muster_chat.Identity.{address_text}
use muster_chat.Store.Keys.{key_text, agents_key, agent_key, presence_key}
use muster_chat.Store.Presence.{touch_presence}
use muster_chat.Store.Agents.{register_agent}
use muster_chat.Reaper.{reap_once}
use muster_chat.Reaper.Directory.{inbox_of, part, at, listed}
use muster_chat.Reaper.Rounds.{alive, reap_once-removes}
use muster_chat.Tests.Samples.{lab, joined}

abbrev stale : Text
stale = codes "ann/old/cc/web/9"

abbrev half : Store
half = memory.sadd agents_key stale (joined lab nothing)

stale_in_directory : listed memory memory_laws stale half ≡ true
unfolding touch_presence register_agent agents_key agent_key presence_key key_text ◌==◌ address_text
stale_in_directory = refl

stale_gone : alive memory memory_laws stale half ≡ false
unfolding touch_presence register_agent agents_key agent_key presence_key key_text ◌==◌ address_text
stale_gone = refl

reap_once-removes_example :
    (listed memory memory_laws stale (reap_once memory half).1 ≡ false)
    × (memory.exists (at memory memory_laws (part inbox_of stale) (reap_once memory half).1)
        ≡ false)
reap_once-removes_example =
    reap_once-removes memory memory_laws stale inbox_of half stale_in_directory stale_gone
