-- ===== src/Store/Inbox/Races.antt =====
-- Two fetches of one agent that overlap: each reads the inbox before either moves the cursor.
use muster_chat.Base.{
  ℕ, zero, suc, ◌<◌, ◌≡◌, refl, sym, ◌∙◌, List, [], ◌∷◌, Option, none, some, Result, Text, take,
  drop, last?, arith,
}
use muster_chat.Valkey.{Valkey, Laws, Entry}
use muster_chat.Store.Keys.{inbox_key, cursor_key, cursor-ne-inbox}
use muster_chat.Store.Agents.{Crash}
use muster_chat.Store.Inbox.{Message, entries_past_cursor, move_cursor, live_entries, fetch_unread}
use muster_chat.Store.Inbox.Fetch.{unread, entries_past_cursor_lem, unread-moved, last?-none}

module _ (v : Valkey) where
  open v use {Db}

  -- the second half of `fetch_unread`: the cursor is set, where something was read
  unfoldable pub advance : Text → List Entry → Db → Db
  unfolding move_cursor
  advance a batch db = move_cursor v a (last? batch) db

  -- Both fetches read, then both advance, and each answers with the live ones of what it has read.
  unfoldable pub overlapping :
      (now now' : ℕ)
      → Text
      → (limit limit' : ℕ) → Db
      → Result Crash (List Message) × Result Crash (List Message) × Db
  unfolding advance
  overlapping now now' a limit limit' db =
      let batch = entries_past_cursor v a limit db in
      let batch' = entries_past_cursor v a limit' db in
      (live_entries now batch, live_entries now' batch', advance a batch' (advance a batch db))

module _ (v : Valkey) (laws : Laws v) where
  open v use {Db, cell, get, entries, set_value}
  open laws use {get-set, frame_set}

  -- One after the other is what `fetch_unread` does.
  fetch_unread-advance :
      (now : ℕ) (a : Text) (limit : ℕ) (db : Db)
      → fetch_unread v now a limit db ≡ (
        live_entries now (entries_past_cursor v a limit db),
        advance v a (entries_past_cursor v a limit db) db,
      )
  unfolding fetch_unread advance
  fetch_unread-advance now a limit db = refl

  -- A cursor that is set twice is where it was set last.
  unread-set_twice :
      (a i j : Text) (db : Db)
      → unread v laws a (set_value (cursor_key a) j (set_value (cursor_key a) i db))
        ≡ unread v laws a (set_value (cursor_key a) j db)
  unread-set_twice a i j db = rw (
    get-set (cursor_key a) j (set_value (cursor_key a) i db),
    get-set (cursor_key a) j db,
    frame_set j (cursor_key a) (inbox_key a) (set_value (cursor_key a) i db) (cursor-ne-inbox a a),
    frame_set j (cursor_key a) (inbox_key a) db (cursor-ne-inbox a a),
    frame_set i (cursor_key a) (inbox_key a) db (cursor-ne-inbox a a),
  )

  none_past : (n : ℕ) (es : List Entry) → 0 < n → take n es ≡ [] → es ≡ []
  none_past zero es h e = absurd (omega arith)
  none_past (suc n) [] h e = refl
  none_past (suc n) (x ∷ es) h e = absurd (ground arith)

  drop_nil : (n : ℕ) (es : List Entry) → es ≡ [] → drop n es ≡ []
  drop_nil zero es e = e
  drop_nil (suc n) es e = rw e refl

  nothing_read :
      (a : Text) (limit : ℕ) (db : Db)
      → 0 < limit
      → last? (take limit (unread v laws a db)) ≡ none
      → unread v laws a db ≡ []
  nothing_read a limit db h e = none_past limit (unread v laws a db) h (last?-none _ e)

  last_of_nil : (n : ℕ) (es : List Entry) → es ≡ [] → last? (take n es) ≡ none
  last_of_nil zero es e = refl
  last_of_nil (suc n) es e = rw e refl

  -- where the second to advance has read up to `o`, and the first up to `o'`
  advance_last :
      (a : Text) (limit : ℕ) (o o' : Option Entry) (db : Db)
      → 0 < limit
      → last? (take limit (unread v laws a db)) ≡ o
      → (unread v laws a db ≡ [] → o' ≡ none)
      → unread v laws a (move_cursor v a o (move_cursor v a o' db))
        ≡ drop limit (unread v laws a db)
  unfolding move_cursor
  advance_last a limit none o' db h e both =
      let empty = nothing_read a limit db h e in
      rw (both empty) (empty ∙ sym (drop_nil limit _ empty))
  advance_last a limit (some e2) none db h e both = unread-moved v laws a limit db e2 e
  advance_last a limit (some e2) (some e1) db h e both =
      unread-set_twice a e1.id e2.id db ∙ unread-moved v laws a limit db e2 e

  -- Two fetches of one agent that overlap both answer with the live ones of the first entries that
  -- were not fetched before, so that the entries within both limits are returned twice; and the one
  -- that advances last decides what is left to be fetched, which is all but what it has read
  -- itself.
  pub overlapping_lem :
      (now now' : ℕ) (a : Text) (limit limit' : ℕ) (db : Db)
      → 0 < limit'
      → let (r, r', db') = overlapping v now now' a limit limit' db in
        (r ≡ live_entries now (take limit (unread v laws a db)))
        × (r' ≡ live_entries now' (take limit' (unread v laws a db)))
        × (unread v laws a db' ≡ drop limit' (unread v laws a db))
  unfolding overlapping advance
  overlapping_lem now now' a limit limit' db h =
      rw (entries_past_cursor_lem v laws a limit db, entries_past_cursor_lem v laws a limit' db)
        (
          refl,
          refl,
          advance_last a limit' (last? (take limit' (unread v laws a db)))
              (last? (take limit (unread v laws a db))) db h refl
              (last_of_nil limit (unread v laws a db)),
        )
