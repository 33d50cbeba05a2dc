-- ===== src/Tests/Streams.antt =====
-- Streams of one agent.
use muster_chat.Base.{
  false, ◌≤◌, length, ◌++◌, ◌≡◌, refl, List, [], ◌∷◌, none, ok, Text, codes, arith, ◌==◌,
}
use muster_chat.Valkey.Memory.{memory, plain_json, nothing, Store}
use muster_chat.Valkey.Memory.Lawful.{memory_laws}
use muster_chat.Identity.{address_text}
use muster_chat.Store.Keys.{agent_key}
use muster_chat.Store.Presence.{owner}
use muster_chat.Store.Deliver.{Event}
use muster_chat.Stream.Session.{
  Session, Act, registers, subscribes, counts, forwards, ends, published, fresh_session, acts,
}
use muster_chat.Stream.Session.Heard.{heard_in, own_in, acts-delivered}
use muster_chat.Stream.Session.Told.{delivered}
use muster_chat.Stream.{open_stream, ping_step, same_groups}
use muster_chat.Stream.Ownership.{
  Move, opens, pings, closes, run_moves, held_after, owner-run_moves, run_moves-late_ping,
}
use muster_chat.Stream.Registry.{ping_step-hash}
use muster_chat.Tests.Samples.{settings, ann, desk}

abbrev moves : List (Move Text)
moves = opens 1 (codes "c1") ann [] ∷ opens 2 (codes "c2") ann [] ∷ closes (codes "c1") ∷ []

owner-run_moves_example :
    owner memory (run_moves memory plain_json settings desk moves nothing) (address_text desk)
    ≡ held_after moves (owner memory nothing (address_text desk))
owner-run_moves_example =
    owner-run_moves memory memory_laws plain_json settings desk moves nothing (omega arith)

run_moves-late_ping_example :
    owner memory
      (run_moves memory plain_json settings desk
        (opens 1 (codes "c1") ann []
          ∷ opens 2 (codes "c2") ann []
          ∷ pings 3 (codes "c1") ann [] (ok ann)
          ∷ closes (codes "c1")
          ∷ [])
        nothing)
      (address_text desk)
    ≡ none
run_moves-late_ping_example =
    run_moves-late_ping memory memory_laws plain_json settings desk 1 2 3 (codes "c1") (codes "c2")
      ann ann [] nothing (omega arith)

abbrev opened : Store
opened = (open_stream memory plain_json settings desk 1 (codes "c1") ann [] nothing).1

ping_step-hash_example :
    memory.cell
      (ping_step memory plain_json settings desk 2 (codes "c1") ann [] (ok ann) opened).1
      (agent_key (address_text desk))
    ≡ memory.cell opened (agent_key (address_text desk))
ping_step-hash_example =
    ping_step-hash memory memory_laws plain_json settings desk 2 (codes "c1") ann ann [] opened
      (unfold same_groups ◌==◌ in refl)

-- a stream that is told of two messages, the first of them before its count, and forwards both
abbrev pub told_twice : List Act
told_twice =
    registers 1
    ∷ subscribes
    ∷ published (Event.chat (codes "1-0") (codes "bob") (codes "one") false)
    ∷ counts 2
    ∷ forwards
    ∷ published (Event.chat (codes "2-0") (codes "bob") (codes "two") false)
    ∷ forwards
    ∷ ends
    ∷ []

abbrev pub told_events : List Event
told_events =
    heard_in memory plain_json settings desk (codes "c1") [] told_twice (fresh_session ann, nothing)

abbrev pub own_events : List Event
own_events =
    own_in memory plain_json settings desk (codes "c1") [] told_twice (fresh_session ann, nothing)

abbrev pub after_two : Session
after_two =
    (acts memory plain_json settings desk (codes "c1") [] told_twice (fresh_session ann, nothing)).0

acts-delivered_example :
    (length own_events ≤ 1)
    × (delivered after_two.written ++ after_two.queue ≡ own_events ++ told_events)
acts-delivered_example =
    acts-delivered memory plain_json settings desk (codes "c1") [] told_twice ann nothing
