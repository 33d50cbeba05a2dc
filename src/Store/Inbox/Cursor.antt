-- ===== src/Store/Inbox/Cursor.antt =====
-- A fetch keeps every cursor well formed, its own and those of the other agents.
use mathlib.Core.Path.{subst}
use muster_chat.Base.{
  ℕ, ◌≢◌, sym, Option, none, some, Text, ◌==◌, ==_sound, ne_of_==, Bool-cases, inl, inr,
}
use muster_chat.Valkey.{Valkey, Laws, Entry}
use muster_chat.Store.Keys.{inbox_key, cursor_key, cursor-ne-inbox, cursor_key-injective}
use muster_chat.Store.Inbox.{move_cursor, fetch_unread}
use muster_chat.Store.Inbox.Fetch.{
  CursorIsIssued, CursorIsIssued-frame, fetch_unread-CursorIsIssued,
}

module _ (v : Valkey) (laws : Laws v) where
  open v use {Db}
  open laws use {frame_set}

  move_cursor-CursorIsIssued :
      (a b : Text) (o : Option Entry) (db : Db)
      → a ≢ b
      → CursorIsIssued v laws b db
      → CursorIsIssued v laws b (move_cursor v a o db)
  unfolding move_cursor
  move_cursor-CursorIsIssued a b none db h k = k
  move_cursor-CursorIsIssued a b (some e) db h k =
      CursorIsIssued-frame v laws b db _
        (frame_set e.id (cursor_key a) (inbox_key b) db (cursor-ne-inbox a b))
        (frame_set e.id (cursor_key a) (cursor_key b) db (λ q. h (cursor_key-injective a b q))) k

  -- A fetch leaves every cursor at the start or at an issued entry, if it was there before.
  pub fetch_unread-CursorIsIssued_all :
      (now : ℕ) (a b : Text) (limit : ℕ) (db : Db)
      → CursorIsIssued v laws b db
      → CursorIsIssued v laws b (fetch_unread v now a limit db).1
  fetch_unread-CursorIsIssued_all now a b limit db k = elim (Bool-cases (a == b)) [
    | inl q ↦
        subst (λ c. CursorIsIssued v laws b (fetch_unread v now c limit db).1)
          (sym (==_sound a b q)) (fetch_unread-CursorIsIssued v laws now b limit db k)
    | inr q ↦ unfold fetch_unread in move_cursor-CursorIsIssued a b _ db (ne_of_== a b q) k
  ]
