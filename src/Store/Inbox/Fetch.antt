-- ===== src/Store/Inbox/Fetch.antt =====
-- Fetching reads each entry once, in order.
use muster_chat.Base.{
  ℕ, zero, suc, ◌≡◌, ◌≢◌, refl, sym, ◌∙◌, true, List, [], ◌∷◌, Option, none, some, Text, All, take,
  drop, last?, is_empty_of_ne, arith, Option-cases, inl, inr,
}
use muster_chat.Valkey.{Valkey, Laws, Entry, past, IsOrdered}
use muster_chat.Store.Keys.{inbox_key, cursor_key, cursor-ne-inbox, cursor_key-injective}
use muster_chat.Store.Inbox.{start, entries_past_cursor, fetch_unread, move_cursor, live_entries}
use muster_chat.Store.Inbox.Order.{
  last?-take_All, past_last, past-IsOrdered, past_twice, All-select, select-All,
}

pub last?-none : (es : List Entry) → last? es ≡ none → es ≡ []
last?-none [] h = refl
last?-none (e ∷ []) h = absurd (ground arith)
last?-none (e ∷ e' ∷ es) h = absurd (ground (arith, last?-none (e' ∷ es)))

pub drop_of_take_nil : (n : ℕ) (es : List Entry) → take n es ≡ [] → drop n es ≡ es
drop_of_take_nil zero es h = refl
drop_of_take_nil (suc n) [] h = refl
drop_of_take_nil (suc n) (e ∷ es) h = absurd (ground arith)

module _ (v : Valkey) (laws : Laws v) where
  open v use {Db, cell, get, entries, before, set_value, issued}
  open laws use {entries-IsOrdered, xrange_lem, frame_set, get-set, issued-entries, issued-ne-nil}

  -- What an agent has not fetched: the entries behind its cursor.
  abbrev pub unread : Text → Db → List Entry
  unread a db = past v (start v (get (cell db (cursor_key a)))) (entries (cell db (inbox_key a)))

  pub entries_past_cursor_lem :
      (a : Text) (limit : ℕ) (db : Db) → entries_past_cursor v a limit db ≡ take limit (unread a db)
  unfolding entries_past_cursor
  entries_past_cursor_lem a limit db = xrange_lem _ _ limit db

  -- behind the last entry of a batch
  pub past_batch :
      (from : Option Text) (n : ℕ) (es : List Entry) (e : Entry)
      → IsOrdered v es
      → last? (take n (past v from es)) ≡ some e
      → past v (some e.id) es ≡ drop n (past v from es)
  past_batch none n es e h l = past_last v laws n es e h l
  past_batch (some i) n es e h l =
      sym (
        past_twice v laws i e.id es (
          last?-take_All v laws (λ e'. before i e'.id ≡ true) n (past v (some i) es) e
            (select-All v laws (λ e'. before i e'.id) es) l))
      ∙ past_last v laws n (past v (some i) es) e (past-IsOrdered v laws (some i) es h) l

  past-All :
      (P : Entry → Type 0) (from : Option Text) (es : List Entry)
      → All P es
      → All P (past v from es)
  past-All P none es h = h
  past-All P (some i) es h = All-select v laws P (λ e. before i e.id) es h

  pub start_of_ne : (i : Text) → i ≢ [] → start v (some i) ≡ some i
  start_of_ne i h = rw (is_empty_of_ne i h)

  -- the last entry of a batch was issued
  pub last_issued :
      (a : Text) (n : ℕ) (db : Db) (e : Entry)
      → last? (take n (unread a db)) ≡ some e
      → issued (cell db (inbox_key a)) e.id ≡ true
  last_issued a n db e l =
      let c = cell db (inbox_key a) in
      let from = start v (get (cell db (cursor_key a))) in
      last?-take_All v laws (λ e'. issued c e'.id ≡ true) n (past v from (entries c)) e
        (past-All (λ e'. issued c e'.id ≡ true) from (entries c) (issued-entries c)) l

  -- where the cursor has moved to the last entry of a batch
  pub unread-moved :
      (a : Text) (n : ℕ) (db : Db) (e : Entry)
      → last? (take n (unread a db)) ≡ some e
      → unread a (set_value (cursor_key a) e.id db) ≡ drop n (unread a db)
  unread-moved a n db e l =
      let c = cell db (inbox_key a) in
      let from = start v (get (cell db (cursor_key a))) in
      let ne : e.id ≢ [] = issued-ne-nil c e.id (last_issued a n db e l) in
      rw
        (
          frame_set e.id (cursor_key a) (inbox_key a) db (cursor-ne-inbox a a),
          get-set (cursor_key a) e.id db,
          start_of_ne e.id ne,
        )
        (past_batch from n (entries c) e (entries-IsOrdered c) l)

  move_cursor-unread :
      (a : Text) (n : ℕ) (db : Db)
      → unread a (move_cursor v a (last? (take n (unread a db))) db) ≡ drop n (unread a db)
  unfolding move_cursor
  move_cursor-unread a n db = elim (Option-cases (last? (take n (unread a db)))) [
    | inl q ↦ rw q (sym (drop_of_take_nil n _ (last?-none _ q)))
    | inr (e, q) ↦ rw q (unread-moved a n db e q)
  ]

  -- The cursor of an agent is at the start, or at an entry that its stream has issued.
  abbrev pub IsPosition : Text → Option Text → Db → Type 0
  IsPosition a none db = Unit
  IsPosition a (some i) db = issued (cell db (inbox_key a)) i ≡ true

  abbrev pub CursorIsIssued : Text → Db → Type 0
  CursorIsIssued a db = IsPosition a (start v (get (cell db (cursor_key a)))) db

  IsPosition-frame :
      (a : Text) (from : Option Text) (db db' : Db)
      → cell db' (inbox_key a) ≡ cell db (inbox_key a)
      → IsPosition a from db
      → IsPosition a from db'
  IsPosition-frame a none db db' e h = tt
  IsPosition-frame a (some i) db db' e h = rw e h

  -- Both depend on what is kept at the keys of the agent alone.
  pub CursorIsIssued-frame :
      (a : Text) (db db' : Db)
      → cell db' (inbox_key a) ≡ cell db (inbox_key a)
      → cell db' (cursor_key a) ≡ cell db (cursor_key a)
      → CursorIsIssued a db
      → CursorIsIssued a db'
  CursorIsIssued-frame a db db' i c h = rw c (IsPosition-frame a _ db db' i h)

  pub unread-frame :
      (a : Text) (db db' : Db)
      → cell db' (inbox_key a) ≡ cell db (inbox_key a)
      → cell db' (cursor_key a) ≡ cell db (cursor_key a)
      → unread a db' ≡ unread a db
  unread-frame a db db' i c = rw (i, c)

  moved-CursorIsIssued :
      (a : Text) (n : ℕ) (db : Db) (e : Entry)
      → last? (take n (unread a db)) ≡ some e
      → CursorIsIssued a (set_value (cursor_key a) e.id db)
  moved-CursorIsIssued a n db e l =
      let h = last_issued a n db e l in
      rw
        (
          get-set (cursor_key a) e.id db,
          start_of_ne e.id (issued-ne-nil (cell db (inbox_key a)) e.id h),
          frame_set e.id (cursor_key a) (inbox_key a) db (cursor-ne-inbox a a),
        )
        h

  -- A fetch leaves the cursor at the start or at an issued entry, if it was there before.
  pub fetch_unread-CursorIsIssued :
      (now : ℕ) (a : Text) (limit : ℕ) (db : Db)
      → CursorIsIssued a db
      → CursorIsIssued a (fetch_unread v now a limit db).1
  fetch_unread-CursorIsIssued now a limit db h =
      unfold fetch_unread in
      rw (entries_past_cursor_lem a limit db)
        (elim (Option-cases (last? (take limit (unread a db)))) [
          | inl q ↦ rw q (unfold move_cursor in h)
          | inr (e, q) ↦ rw q (unfold move_cursor in moved-CursorIsIssued a limit db e q)
        ])

  -- A fetch answers with the live ones of the first entries that were not fetched before, in order,
  -- and leaves exactly the others to be fetched.
  pub fetch_unread_lem :
      (now : ℕ) (a : Text) (limit : ℕ) (db : Db)
      → ((fetch_unread v now a limit db).0 ≡ live_entries now (take limit (unread a db)))
        × (unread a (fetch_unread v now a limit db).1 ≡ drop limit (unread a db))
  fetch_unread_lem now a limit db =
      unfold fetch_unread in
      rw (entries_past_cursor_lem a limit db) (refl, move_cursor-unread a limit db)

  other_cursor :
      (a b : Text) (o : Option Entry) (db : Db)
      → a ≢ b
      → unread b (move_cursor v a o db) ≡ unread b db
  unfolding move_cursor
  other_cursor a b none db h = refl
  other_cursor a b (some e) db h = rw (
    frame_set e.id (cursor_key a) (inbox_key b) db (cursor-ne-inbox a b),
    frame_set e.id (cursor_key a) (cursor_key b) db (λ q. h (cursor_key-injective a b q)),
  )

  -- A fetch does not change what other agents have to fetch.
  pub fetch_unread-others :
      (now : ℕ) (a b : Text) (limit : ℕ) (db : Db)
      → a ≢ b
      → unread b (fetch_unread v now a limit db).1 ≡ unread b db
  unfolding fetch_unread
  fetch_unread-others now a b limit db h = other_cursor a b _ db h
