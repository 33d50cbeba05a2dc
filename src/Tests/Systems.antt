-- ===== src/Tests/Systems.antt =====
-- The server in steps, and an inbox that is read to its end.
use muster_chat.Base.{◌++◌, take, drop, ◌*◌, ◌≤◌, length, ◌≡◌, List, [], ◌∷◌, codes, ◌==◌, arith}
use muster_chat.Valkey.{Entry}
use muster_chat.Valkey.Memory.{memory, plain_json}
use muster_chat.Valkey.Memory.Lawful.{memory_laws}
use muster_chat.Store.Inbox.Fetch.{unread, CursorIsIssued}
use muster_chat.Store.Inbox.Drain.{joined, AnswersWith, fetches, fetches_drain}
use muster_chat.Store.Inbox.Arriving.{Leaves, interrupted, interrupted_lem}
use muster_chat.Store.Inbox.Races.{overlapping, overlapping_lem}
use muster_chat.Store.Keys.{agents_key, agent_key, rate_key, presence_key, inbox_key, cursor_key}
use muster_chat.Store.Presence.{touch_presence}
use muster_chat.Store.Agents.{register_agent}
use muster_chat.Stream.Ownership.{closes, run_move}
use muster_chat.Store.Rate.{rate_check, count_one, verdict}
use muster_chat.Store.Inbox.{live_entries, append_message}
use muster_chat.Store.Deliver.{publish_deliver}
use muster_chat.Ops.Chat.{send_chat}
use muster_chat.Identity.{address_text}
use muster_chat.Reaper.{reap_once}
use muster_chat.App.{Server, handle}
use muster_chat.System.{with_db, serves, streams, reaps, Reach, here, next}
use muster_chat.System.Mail.{arrivals, Reach-ids}
use muster_chat.Ops.Mail.{ids}
use muster_chat.Base.Ends.{IsEnd}
use muster_chat.System.Cursors.{Reach-CursorIsIssued}
use muster_chat.Tests.Samples.{settings, lab}
use muster_chat.Tests.Chats.{both_issued, after_hello}
use muster_chat.Tests.Serving.{same, shown, asked, at_eight, said_hello, before}

-- after a chat, the end of the stream of its recipient, and a round of the reaper
abbrev told : Server memory
told = (handle memory plain_json same shown asked settings at_eight said_hello before).1

abbrev closed : Server memory
closed =
    with_db memory plain_json same shown asked settings told
      (run_move memory plain_json settings lab (closes (codes "c")) told.world.db)

abbrev reaped : Server memory
reaped =
    with_db memory plain_json same shown asked settings closed (reap_once memory closed.world.db).1

abbrev steps : Reach memory plain_json same shown asked settings before reaped
steps =
    next (next (next here (serves at_eight said_hello)) (streams lab (closes (codes "c")))) reaps

Reach-CursorIsIssued_example :
    CursorIsIssued memory memory_laws (codes "ann/lab/cc/web/2") reaped.world.db
Reach-CursorIsIssued_example =
    Reach-CursorIsIssued memory memory_laws plain_json same shown asked settings before reaped
      (codes "ann/lab/cc/web/2") both_issued steps

Reach-ids_example :
    IsEnd (ids memory memory_laws plain_json (codes "ann/lab/cc/web/2") reaped.world.db) (
      ids memory memory_laws plain_json (codes "ann/lab/cc/web/2") before.world.db
      ++ arrivals memory plain_json same shown asked settings (codes "ann/lab/cc/web/2") steps)
Reach-ids_example =
    Reach-ids memory memory_laws plain_json same shown asked settings (codes "ann/lab/cc/web/2")
      (omega arith) both_issued steps

one_unread : length (unread memory memory_laws (codes "ann/lab/cc/web/2") after_hello.db) ≤ 2 * 1
unfolding send_chat append_message rate_check count_one verdict rate_key inbox_key touch_presence
    register_agent presence_key agent_key agents_key cursor_key ◌==◌ address_text publish_deliver
one_unread = omega arith

fetches_drain_example :
    (batches : List (List Entry)) × (joined batches
      ≡ unread memory memory_laws (codes "ann/lab/cc/web/2") after_hello.db)
    × AnswersWith
        (9 ∷ 10 ∷ [])
        batches
        (fetches memory (codes "ann/lab/cc/web/2") 1 (9 ∷ 10 ∷ []) after_hello.db).0
    × (unread memory memory_laws
          (codes "ann/lab/cc/web/2")
          (fetches memory (codes "ann/lab/cc/web/2") 1 (9 ∷ 10 ∷ []) after_hello.db).1
        ≡ [])
fetches_drain_example =
    fetches_drain memory memory_laws (codes "ann/lab/cc/web/2") 1 (9 ∷ 10 ∷ []) after_hello.db
      one_unread

overlapping_lem_example :
    ((overlapping memory 9 10 (codes "ann/lab/cc/web/2") 2 1 after_hello.db).0
      ≡ live_entries 9
          (take 2 (unread memory memory_laws (codes "ann/lab/cc/web/2") after_hello.db)))
    × ((overlapping memory 9 10 (codes "ann/lab/cc/web/2") 2 1 after_hello.db).1
        ≡ live_entries 10
            (take 1 (unread memory memory_laws (codes "ann/lab/cc/web/2") after_hello.db)))
    × (unread memory memory_laws
          (codes "ann/lab/cc/web/2")
          (overlapping memory 9 10 (codes "ann/lab/cc/web/2") 2 1 after_hello.db).2
        ≡ drop 1 (unread memory memory_laws (codes "ann/lab/cc/web/2") after_hello.db))
overlapping_lem_example =
    overlapping_lem memory memory_laws 9 10 (codes "ann/lab/cc/web/2") 2 1 after_hello.db
      (omega arith)

interrupted_lem_example :
    ((interrupted memory 9 9 (codes "ann/lab/cc/web/2") 1 [] 10 100 told.world.db).0
      ≡ live_entries 9
          (take 1 (unread memory memory_laws (codes "ann/lab/cc/web/2") told.world.db)))
    × Leaves memory memory_laws 9
        (codes "ann/lab/cc/web/2")
        1
        []
        10
        100
        told.world.db
        (interrupted memory 9 9 (codes "ann/lab/cc/web/2") 1 [] 10 100 told.world.db).1
interrupted_lem_example =
    interrupted_lem memory memory_laws 9 (codes "ann/lab/cc/web/2") 1 [] 10 100 told.world.db 9
      (omega arith)
      (Reach-CursorIsIssued memory memory_laws plain_json same shown asked settings before told
        (codes "ann/lab/cc/web/2") both_issued (next here (serves at_eight said_hello)))
