-- ===== src/Store/Inbox/Append.antt =====
-- Appending puts a message at the end of what its recipient has to fetch.
use mathlib.Core.Path.{subst}
use muster_chat.Base.{
  length-drop, ◌==◌, ==_sound, ne_of_==, ℕ, zero, suc, ◌≤◌, ◌<◌, ◌≡◌, ◌⊎◌, refl, sym, ap, ◌∙◌, true,
  List, [], ◌∷◌, ◌++◌, Option, none, some, Text, Fields, drop, length, length-append, arith,
  Bool-cases, inl, inr,
}
use muster_chat.Valkey.{Valkey, Laws, Entry, past}
use muster_chat.Store.Keys.{inbox_key, cursor_key, inbox-ne-cursor, inbox_key-injective}
use muster_chat.Store.Inbox.{start, append_message, stamp}
use muster_chat.Store.Inbox.Fetch.{unread, CursorIsIssued, IsPosition}

module _ (v : Valkey) (laws : Laws v) where
  open v use {Db, cell, get, entries, before, issued, xadd}
  open laws use {frame_xadd, before-xadd, issued-xadd, entries-xadd}

  past-drop :
      (i : Text) (d : ℕ) (es : List Entry)
      → (m : ℕ) × (m ≤ d) × (past v (some i) (drop d es) ≡ drop m (past v (some i) es))
  past-drop i zero es = (0, omega arith, refl)
  past-drop i (suc d) [] = (0, omega arith, refl)
  past-drop i (suc d) (e ∷ es) =
      let (m, h, q) = past-drop i d es in
      elim (Bool-cases (before i e.id)) [
        | inl b ↦ (suc m, omega arith, rw b q)
        | inr b ↦ (m, omega arith, rw b q)
      ]

  past-append :
      (i : Text) (es : List Entry) (e : Entry)
      → before i e.id ≡ true
      → past v (some i) (es ++ e ∷ []) ≡ past v (some i) es ++ e ∷ []
  past-append i [] e h = rw h
  past-append i (x ∷ es) e h = elim (Bool-cases (before i x.id)) [
    | inl q ↦ rw q (ap (λ l. x ∷ l) (past-append i es e h))
    | inr q ↦ rw q (past-append i es e h)
  ]

  drop-append :
      (d : ℕ) (es : List Entry) (e : Entry)
      → d ≤ length es
      → drop d (es ++ e ∷ []) ≡ drop d es ++ e ∷ []
  drop-append zero es e h = refl
  drop-append (suc d) [] e h = absurd (omega arith)
  drop-append (suc d) (x ∷ es) e h = drop-append d es e (omega arith)

  trimmed :
      (from : Option Text) (d : ℕ) (es : List Entry) (e : Entry)
      → d ≤ length es
      → ((i : Text) → from ≡ some i → before i e.id ≡ true)
      → (m : ℕ) × (m ≤ d)
        × (past v from (drop d (es ++ e ∷ [])) ≡ drop m (past v from es) ++ e ∷ [])
  trimmed none d es e h k = (d, omega arith, drop-append d es e h)
  trimmed (some i) d es e h k =
      let (m, le, q) = past-drop i d es in
      (
        m,
        le,
        ap (past v (some i)) (drop-append d es e h)
            ∙ past-append i (drop d es) e (k i refl)
            ∙ ap (λ l. l ++ e ∷ []) q,
      )

  -- what is trimmed stood in the stream before
  trimmed_old :
      (n d : ℕ) (es es' : List Entry) (e : Entry)
      → 0 < n
      → es' ≡ drop d (es ++ e ∷ [])
      → (d ≡ 0) ⊎ (n ≤ length es')
      → d ≤ length es
  trimmed_old n d es es' e pos q (inl z) = omega arith
  trimmed_old n d es es' e pos q (inr le) =
      let len : length es' ≡ length (drop d (es ++ e ∷ [])) = ap length q in
      omega (arith, length-drop d (es ++ e ∷ []), length-append es (e ∷ []))

  -- the message that `append_message` stores
  abbrev pub appended : ℕ → Text → Fields → ℕ → ℕ → Db → Entry
  appended now to fields maxlen message_ttl db = record {
    id = (append_message v now to fields maxlen message_ttl db).0;
    fields = stamp now message_ttl fields;
  }

  position_before :
      (a : Text) (from : Option Text) (fs : Fields) (n : ℕ) (db : Db)
      → IsPosition v laws a from db
      → (i : Text) → from ≡ some i
      → before i (xadd (inbox_key a) fs n db).0 ≡ true
  position_before a none fs n db h i q = absurd (ground arith)
  position_before a (some j) fs n db h i q = cc (before-xadd (inbox_key a) fs n db j h)

  -- Behind any place that is the start or an issued entry, an append adds the message, and some of
  -- the oldest may go, only from an inbox that still holds as many entries as the cap.
  pub append_message-past :
      (from : Option Text) (now : ℕ) (to : Text) (fields : Fields) (maxlen message_ttl : ℕ)
      (db : Db)
      → 0 < maxlen
      → IsPosition v laws to from db
      → (m : ℕ) × (past v from
            (entries (cell (append_message v now to fields maxlen message_ttl db).1 (inbox_key to)))
          ≡ drop m (past v from (entries (cell db (inbox_key to))))
            ++ appended now to fields maxlen message_ttl db ∷ [])
        × ((m ≡ 0)
            ⊎ (maxlen
                ≤ length (
                    entries (
                      cell
                        (append_message v now to fields maxlen message_ttl db).1
                        (inbox_key to)))))
  append_message-past from now to fields maxlen message_ttl db pos h =
      unfold append_message in
      let fs = stamp now message_ttl fields in
      let (d, e, room) = entries-xadd (inbox_key to) fs maxlen db in
      let new : Entry = record { id = (xadd (inbox_key to) fs maxlen db).0; fields = fs } in
      let (m, le, q) =
        trimmed from d (entries (cell db (inbox_key to))) new
          (trimmed_old maxlen d _ _ new pos e room) (position_before to from fs maxlen db h) in
      (m, rw e q, elim room [ inl z ↦ inl (omega arith) | inr r ↦ inr r ])

  -- Where the cap is positive and the cursor is at the start or at an issued entry, an append puts
  -- the message behind what its recipient had to fetch, of which some of the oldest may go, and
  -- only from an inbox that still holds as many entries as the cap.
  pub append_message_lem :
      (now : ℕ) (to : Text) (fields : Fields) (maxlen message_ttl : ℕ) (db : Db)
      → 0 < maxlen
      → CursorIsIssued v laws to db
      → (m : ℕ) × (unread v laws to (append_message v now to fields maxlen message_ttl db).1
          ≡ drop m (unread v laws to db) ++ appended now to fields maxlen message_ttl db ∷ [])
        × ((m ≡ 0)
            ⊎ (maxlen
                ≤ length (
                    entries (
                      cell
                        (append_message v now to fields maxlen message_ttl db).1
                        (inbox_key to)))))
  append_message_lem now to fields maxlen message_ttl db pos h =
      let from = start v (get (cell db (cursor_key to))) in
      let (m, q, room) = append_message-past from now to fields maxlen message_ttl db pos h in
      let same : cell (append_message v now to fields maxlen message_ttl db).1 (cursor_key to)
          ≡ cell db (cursor_key to) =
        unfold append_message in
        frame_xadd _ maxlen (inbox_key to) (cursor_key to) db (inbox-ne-cursor to to) in
      (m, rw same q, room)

  kept-IsPosition :
      (a to : Text) (from : Option Text) (fs : Fields) (n : ℕ) (db : Db)
      → IsPosition v laws a from db
      → IsPosition v laws a from (xadd (inbox_key to) fs n db).1
  kept-IsPosition a to none fs n db h = tt
  kept-IsPosition a to (some i) fs n db h = elim (Bool-cases (to == a)) [
    | inl q ↦
        subst (λ b. issued (cell (xadd (inbox_key b) fs n db).1 (inbox_key a)) i ≡ true)
          (sym (==_sound to a q)) (issued-xadd (inbox_key a) fs n db i h)
    | inr q ↦
        rw
          (frame_xadd fs n (inbox_key to) (inbox_key a) db
            (λ e. ne_of_== to a q (inbox_key-injective to a e)))
          h
  ]

  -- An append leaves every cursor at the start or at an issued entry, if it was there before.
  pub append_message-CursorIsIssued :
      (now : ℕ) (to a : Text) (fields : Fields) (maxlen message_ttl : ℕ) (db : Db)
      → CursorIsIssued v laws a db
      → CursorIsIssued v laws a (append_message v now to fields maxlen message_ttl db).1
  append_message-CursorIsIssued now to a fields maxlen message_ttl db h =
      unfold append_message in
      let fs = stamp now message_ttl fields in
      rw (frame_xadd fs maxlen (inbox_key to) (cursor_key a) db (inbox-ne-cursor to a))
        (kept-IsPosition a to _ fs maxlen db h)
