-- ===== src/Store/Inbox.antt =====
-- `append_message`, `_entries_past_cursor`, `fetch_unread` and `unread_count`: the inbox of an agent,
-- a stream with one read cursor.
pub mod Order
pub mod Fetch
pub mod Append
pub mod Cursor
pub mod Expiry
pub mod Drain
pub mod Races
pub mod Arriving
use muster_chat.Base.{
  ℕ, ◌+◌, ◌≡◌, Bool, true, false, List, [], ◌∷◌, Option, none, some, Result, ok, err, ◌>>=◌, Text,
  Fields, codes, ℤ, above, is_empty, put, decimal, last?, if◌then◌else◌, length,
}
use muster_chat.Valkey.{Valkey, Entry}
use muster_chat.Store.Keys.{inbox_key, cursor_key}
use muster_chat.Store.Agents.{Crash, item_or, int_item}

-- A message as `fetch_unread` returns it.
abbrev pub Message : Type 0
Message = Entry

-- `int(f.get("expires_at", "0") or 0) > now`
unfoldable pub is_live : ℕ → Entry → Result Crash Bool
unfolding int_item
is_live now e = int_item (codes "expires_at") (codes "0") e.fields >>= λ z. ok (above z now)

-- `[e for e in entries if int(e.expires_at) > now]`
unfoldable pub live_entries : ℕ → List Entry → Result Crash (List Entry)
live_entries now [] = ok []
live_entries now (e ∷ es) =
    let rest = live_entries now es in
    is_live now e >>= λ b. rest >>= λ xs. ok (if b then e ∷ xs else xs)

-- what `append_message` stores beside the fields that it is given
unfoldable pub stamp : ℕ → ℕ → Fields → Fields
stamp now message_ttl fields =
    put (codes "expires_at") (decimal (now + message_ttl)) (put (codes "ts") (decimal now) fields)

module _ (v : Valkey) where
  open v use {Db, cell, get, entries, xrange, set_value, xadd}

  unfoldable pub append_message : ℕ → Text → Fields → ℕ → ℕ → Db → Text × Db
  unfolding stamp
  append_message now to fields maxlen message_ttl db =
      xadd (inbox_key to) (stamp now message_ttl fields) maxlen db

  -- `("(" + cur) if cur else "-"`
  abbrev pub start : Option Text → Option Text
  start none = none
  start (some c) = if is_empty c then none else some c

  -- `_entries_past_cursor`: the GET and the XRANGE see one state
  unfoldable pub entries_past_cursor : Text → ℕ → Db → List Entry
  entries_past_cursor a limit db =
      xrange db (inbox_key a) (start (get (cell db (cursor_key a)))) limit

  -- the cursor moves to the last entry that was read, live or not
  move_cursor : Text → Option Entry → Db → Db
  move_cursor a none db = db
  move_cursor a (some e) db = set_value (cursor_key a) e.id db

  unfoldable pub fetch_unread : ℕ → Text → ℕ → Db → Result Crash (List Message) × Db
  unfolding move_cursor
  fetch_unread now a limit db =
      let es = entries_past_cursor a limit db in (live_entries now es, move_cursor a (last? es) db)

  -- the timestamp of the oldest live message, `""` where there is none
  oldest : List Entry → Text
  oldest [] = []
  oldest (e ∷ es) = item_or (codes "ts") [] e.fields

  unfoldable pub unread_count : ℕ → Text → Db → Result Crash (ℕ × Text)
  unfolding oldest
  unread_count now a db =
      live_entries now (entries_past_cursor a 1000 db) >>= λ es. ok (length es, oldest es)
