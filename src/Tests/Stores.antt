-- ===== src/Tests/Stores.antt =====
-- Envelopes and rates.
use muster_chat.Base.{
  ◌-◌, min, List, [], ◌∷◌, ◌≤◌, ◌≡◌, true, ◌++◌, none, Text, codes, length, arith, strip,
}
use muster_chat.Valkey.Memory.{memory, nothing}
use muster_chat.Valkey.Memory.Lawful.{memory_laws}
use muster_chat.Store.Envelope.{envelope, envelope_lem, prefix, IsOneLine, IsTail, or_text}
use muster_chat.Store.Rate.Window.{Counted, chats, announces, tries, passes, counted, passes_lem}
use muster_chat.Tests.Samples.{settings}
open memory use {Db, cell, counter, exists, entries}

abbrev a1 : Text
a1 = codes "ann/desk/cc/web/1"

envelope_lem_example :
    (t : Text) × (tail : Text) × (envelope 56 a1 (codes "hello") none true
      ≡ prefix true a1 ++ (t ++ tail))
    × (length t ≤ 56)
    × IsOneLine t
    × ((rest : Text) × (t ++ rest ≡ strip (or_text none (codes "hello"))))
    × IsTail (codes "hello") t tail
envelope_lem_example = envelope_lem 56 a1 (codes "hello") none true

abbrev busy : List Counted
busy = chats a1 ∷ announces a1 ∷ chats (codes "bob") ∷ chats a1 ∷ []

passes_lem_example :
    passes memory settings a1 busy nothing
    ≡ min (tries a1 busy) (settings.chat_rate - counted memory settings a1 nothing)
passes_lem_example = passes_lem memory memory_laws settings a1 busy nothing (omega arith)
