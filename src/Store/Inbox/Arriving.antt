-- ===== src/Store/Inbox/Arriving.antt =====
-- A message that arrives while its recipient fetches, between the read of the inbox and the move of
-- the cursor.
use muster_chat.Base.{
  ℕ, ◌<◌, ◌≤◌, ◌⊎◌, length, ◌≡◌, refl, sym, ap, ◌∙◌, List, [], ◌∷◌, ◌++◌, Option, none, some,
  Result, Text, Fields, take, drop, last?,
}
use muster_chat.Valkey.{Valkey, Laws, Entry}
use muster_chat.Store.Keys.{inbox_key, cursor_key, cursor-ne-inbox}
use muster_chat.Store.Agents.{Crash}
use muster_chat.Store.Inbox.{
  Message, start, entries_past_cursor, move_cursor, live_entries, append_message,
}
use muster_chat.Store.Inbox.Fetch.{
  unread, CursorIsIssued, entries_past_cursor_lem, last?-none, drop_of_take_nil, past_batch,
  last_issued, start_of_ne,
}
use muster_chat.Store.Inbox.Append.{appended, append_message-past, append_message_lem}
use muster_chat.Store.Inbox.Races.{advance}

module _ (v : Valkey) where
  open v use {Db}

  -- the first command of `fetch_unread`, a whole `append_message`, and the rest of `fetch_unread`
  unfoldable pub interrupted :
      (now later : ℕ)
      → Text
      → (limit : ℕ) → Fields
      → (maxlen message_ttl : ℕ) → Db
      → Result Crash (List Message) × Db
  unfolding advance
  interrupted now later a limit fields maxlen message_ttl db =
      let batch = entries_past_cursor v a limit db in
      let (msg_id, db') = append_message v now a fields maxlen message_ttl db in
      (live_entries later batch, advance v a batch db')

module _ (v : Valkey) (laws : Laws v) where
  open v use {Db, cell, get, entries, set_value}
  open laws use {entries-IsOrdered, get-set, frame_set, issued-ne-nil}

  module _ (now : ℕ) (a : Text) (limit : ℕ) (fields : Fields) (maxlen message_ttl : ℕ)
      (db : Db) where
    -- after the message is stored
    abbrev stored : Db
    stored = (append_message v now a fields maxlen message_ttl db).1

    -- What is left to be fetched: what the fetch has not read, less some of the oldest, and the message.
    abbrev pub Leaves : Db → Type 0
    Leaves u =
        (m : ℕ) × (unread v laws a u
          ≡ drop m (drop limit (unread v laws a db))
            ++ appended v laws now a fields maxlen message_ttl db ∷ [])
        × ((m ≡ 0) ⊎ (maxlen ≤ length (entries (cell stored (inbox_key a)))))

    moved-Leaves :
        (e : Entry)
        → 0 < maxlen
        → last? (take limit (unread v laws a db)) ≡ some e
        → Leaves (set_value (cursor_key a) e.id stored)
    moved-Leaves e capped l =
        let at = last_issued v laws a limit db e l in
        let (m, q, room) =
          append_message-past v laws (some e.id) now a fields maxlen message_ttl db capped at in
        let from = start v (get (cell db (cursor_key a))) in
        (
          m,
          rw
              (
                frame_set e.id (cursor_key a) (inbox_key a) stored (cursor-ne-inbox a a),
                get-set (cursor_key a) e.id stored,
                start_of_ne v laws e.id (issued-ne-nil (cell db (inbox_key a)) e.id at),
              )
              (q
                ∙ ap (λ es. drop m es ++ appended v laws now a fields maxlen message_ttl db ∷ [])
                    (past_batch v laws from limit (entries (cell db (inbox_key a))) e
                      (entries-IsOrdered (cell db (inbox_key a))) l)),
          room,
        )

    advanced-Leaves :
        (o : Option Entry)
        → 0 < maxlen
        → CursorIsIssued v laws a db
        → last? (take limit (unread v laws a db)) ≡ o
        → Leaves (move_cursor v a o stored)
    unfolding move_cursor
    advanced-Leaves none capped issued l =
        let (m, q, room) =
          append_message_lem v laws now a fields maxlen message_ttl db capped issued in
        (
          m,
          q
              ∙ ap (λ es. drop m es ++ appended v laws now a fields maxlen message_ttl db ∷ [])
                  (sym (drop_of_take_nil limit (unread v laws a db) (last?-none _ l))),
          room,
        )
    advanced-Leaves (some e) capped issued l = moved-Leaves e capped l

    -- A message that arrives while its recipient fetches, between the read and the move of the
    -- cursor, changes nothing of the answer, and comes behind what the fetch has not read, of which
    -- some of the oldest may go, and only from an inbox that holds as many entries as the cap; the
    -- cap is positive and the cursor was at the start or at an issued entry.
    pub interrupted_lem :
        (later : ℕ)
        → 0 < maxlen
        → CursorIsIssued v laws a db
        → let (r, u) = interrupted v now later a limit fields maxlen message_ttl db in
          (r ≡ live_entries later (take limit (unread v laws a db))) × Leaves u
    unfolding interrupted advance
    interrupted_lem later capped issued =
        rw (entries_past_cursor_lem v laws a limit db)
          (refl, advanced-Leaves (last? (take limit (unread v laws a db))) capped issued refl)
