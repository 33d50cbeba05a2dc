-- ===== src/Store/Inbox/Drain.antt =====
-- An agent that fetches again and again reads its whole inbox.
use muster_chat.Base.{
  ℕ, suc, ◌*◌, ◌≤◌, ◌<◌, ◌≡◌, sym, ap, ◌∙◌, List, [], ◌∷◌, ◌++◌, Result, Text, length, take, drop,
  take-append-drop, length-drop, nil_of_length, arith,
}
use muster_chat.Valkey.{Valkey, Laws, Entry}
use muster_chat.Store.Agents.{Crash}
use muster_chat.Store.Inbox.{Message, live_entries, fetch_unread}
use muster_chat.Store.Inbox.Fetch.{unread, fetch_unread_lem}

abbrev pub joined : List (List Entry) → List Entry
joined [] = []
joined (b ∷ bs) = b ++ joined bs

-- The answers of fetches at some times are the live ones of each of the batches.
abbrev pub AnswersWith : List ℕ → List (List Entry) → List (Result Crash (List Message)) → Type 0
AnswersWith [] [] [] = Unit
AnswersWith (now ∷ nows) (b ∷ bs) (r ∷ rs) = (r ≡ live_entries now b) × AnswersWith nows bs rs
AnswersWith nows bs rs = 0 < 0

module _ (v : Valkey) where
  open v use {Db}

  -- Fetches of one agent with one limit, at some times, with nothing in between.
  unfoldable pub fetches : Text → ℕ → List ℕ → Db → List (Result Crash (List Message)) × Db
  fetches a limit [] db = ([], db)
  fetches a limit (now ∷ nows) db =
      let (r, db') = fetch_unread v now a limit db in
      let (rs, db'') = fetches a limit nows db' in (r ∷ rs, db'')

fewer :
    (limit n : ℕ) (es : List Entry) → length es ≤ suc n * limit → length (drop limit es) ≤ n * limit
fewer limit n es h = rw (length-drop limit es) (grind arith)

module _ (v : Valkey) (laws : Laws v) where
  open v use {Db}

  -- An agent that fetches often enough for all that it has to fetch, with nothing sent in between,
  -- has nothing to fetch afterwards; and its fetches have read all that there was, each entry in
  -- one batch and in order, and answered with the live ones.
  pub fetches_drain :
      (a : Text) (limit : ℕ) (nows : List ℕ) (db : Db)
      → length (unread v laws a db) ≤ length nows * limit
      → (batches : List (List Entry)) × (joined batches ≡ unread v laws a db)
        × AnswersWith nows batches (fetches v a limit nows db).0
        × (unread v laws a (fetches v a limit nows db).1 ≡ [])
  unfolding fetches
  fetches_drain a limit [] db h =
      let none_left = nil_of_length (unread v laws a db) (omega (arith, h)) in
      ([], sym none_left, tt, none_left)
  fetches_drain a limit (now ∷ nows) db h =
      let (answered, left) = fetch_unread_lem v laws now a limit db in
      let (bs, whole, answers, done) =
        fetches_drain a limit nows (fetch_unread v now a limit db).1
          (rw left (fewer limit (length nows) (unread v laws a db) h)) in
      (
        take limit (unread v laws a db) ∷ bs,
        ap (λ l. take limit (unread v laws a db) ++ l) (whole ∙ left)
            ∙ take-append-drop limit (unread v laws a db),
        (answered, answers),
        done,
      )
