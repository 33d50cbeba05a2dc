-- ===== src/Ops/Mail.antt =====
-- What the operations do to the messages that an agent has to fetch, by their identifiers.
pub mod Chats
pub mod Requests
use mathlib.Core.Path.{subst}
use muster_chat.Base.{
  ℕ, ◌<◌, ◌≡◌, ◌≢◌, refl, sym, ap, ◌∙◌, Bool, true, false, List, [], ◌∷◌, ◌++◌, map, append-nil,
  Result, ok, err, Text, Fields, codes, ◌==◌, ==_sound, ne_of_==, Bool-cases, inl, inr,
  if◌then◌else◌,
}
use muster_chat.Base.Ends.{IsEnd, IsEnd-same, IsEnd-trans, map-IsEnd, map-IsEnd_behind}
use muster_chat.Base.Exec.{Exec, continue, ◌>>=◌, pure, reads}
use muster_chat.Base.Handlers.{Keeps, Keeps-reads, ended_alike}
use muster_chat.Valkey.{Valkey, Laws, Json, Entry}
use muster_chat.Identity.{Address, address_text}
use muster_chat.Auth.{Identity}
use muster_chat.Config.{Config}
use muster_chat.Store.Keys.{inbox_key, cursor_key, inbox-ne-cursor, inbox_key-injective}
use muster_chat.Store.Agents.{Row}
use muster_chat.Store.Inbox.{append_message, fetch_unread}
use muster_chat.Store.Inbox.Fetch.{unread, unread-frame, fetch_unread_lem, fetch_unread-others}
use muster_chat.Store.Deliver.{World, Event, publish_deliver}
use muster_chat.Ops.Types.{Args, Failure, arg, truthy}
use muster_chat.Ops.Checks.{check_rate}
use muster_chat.Ops.Chat.{
  ChatReply, FetchedMessage, fetched, send_chat, op_chat, read_inbox, op_fetch,
}
use muster_chat.Ops.Chat.Accepted.{chat_checked, op_chat_sound}
use muster_chat.Ops.Chat.Delivery.{op_chat-Delivers, checked_inbox, answer_of, end_of}
use muster_chat.Ops.Roster.{op_roster}
use muster_chat.Ops.Announce.{broadcast, op_announce}
use muster_chat.Ops.Refused.{check_rate-unread, op_chat-Undelivered}
use muster_chat.Ops.Dispatch.{
  Reply, chat_reply, fetch_reply, roster_reply, announce_reply, dispatch,
}
use muster_chat.Ops.Dispatch.Cursors.{
  CursorsAreIssued, publish_all-db, op_announce-Keeps, op_fetch-Keeps,
}

-- The identifier of the message that a chat has brought to an agent.
abbrev pub chatted : Text → ChatReply → List Text
chatted a r = if r.to == a then r.msg_id ∷ [] else []

-- What an answer, and how a request ended, says of new messages of an agent.
abbrev pub brought : {Meta : Type 0} → Text → Reply Meta → List Text
brought a (chat_reply r) = chatted a r
brought a (fetch_reply ms) = []
brought a (roster_reply r) = []
brought a (announce_reply n) = []

abbrev pub told_by : {E A : Type 0} → (Text → A → List Text) → Text → Result E A → List Text
told_by told a (ok r) = told a r
told_by told a (err e) = []

module _ (v : Valkey) (laws : Laws v) (json : Json) where
  open v use {Db, cell}
  open laws use {frame_xadd}
  open json use {Meta}

  -- The identifiers of what an agent has to fetch, the oldest first.
  abbrev pub ids : Text → Db → List Text
  ids a db = map (λ e. e.id) (unread v laws a db)

  -- What an agent has to fetch is some end of what it had to fetch.
  abbrev pub Shrinks : Text → World v → World v → Type 0
  Shrinks a w u = IsEnd (ids a u.db) (ids a w.db)

  shrinks_same :
      (a : Text) (db0 db1 db2 : Db)
      → unread v laws a db2 ≡ unread v laws a db1
      → IsEnd (ids a db1) (ids a db0)
      → IsEnd (ids a db2) (ids a db0)
  shrinks_same a db0 db1 db2 e h = IsEnd-trans (IsEnd-same (ap (map (λ m. m.id)) e)) h

  pub check_rate-Shrinks :
      (a : Text) (w : World v) (kind from : Text) (limit window : ℕ)
      → Keeps (Shrinks a w) (check_rate v json kind from limit window)
  check_rate-Shrinks a w kind from limit window = record {
    at = λ u h.
        shrinks_same a w.db u.db _ (check_rate-unread v laws json kind a from limit window u).0 h;
  }

  pub broadcast-Shrinks :
      (a : Text) (w : World v) (event : Event) (agents : List (Row Meta))
      → Keeps (Shrinks a w) (broadcast v json event agents)
  broadcast-Shrinks a w event agents = record {
    at = λ u h.
        shrinks_same a w.db u.db (broadcast v json event agents u).1.db
          (unfold broadcast in ap (unread v laws a) (publish_all-db v laws json event agents u)) h;
  }

  -- A fetch leaves an end of what its agent had to fetch, and all of what another had.
  fetched-Shrinks :
      (a : Text) (now : ℕ) (reader : Text) (count : ℕ) (db : Db)
      → IsEnd (ids a (fetch_unread v now reader count db).1) (ids a db)
  fetched-Shrinks a now reader count db = elim (Bool-cases (reader == a)) [
    | inl q ↦
        subst (λ b. IsEnd (ids b (fetch_unread v now reader count db).1) (ids b db))
          (==_sound reader a q)
          (map-IsEnd (λ m. m.id) (count, (fetch_unread_lem v laws now reader count db).1))
    | inr q ↦ IsEnd-same (
        ap (map (λ m. m.id))
          (fetch_unread-others v laws now reader a count db (ne_of_== reader a q)))
  ]

  pub read_inbox-Shrinks :
      (a : Text) (w : World v) (now : ℕ) (sender : Address) (count : ℕ)
      → Keeps (Shrinks a w) (read_inbox v json now sender count)
  read_inbox-Shrinks a w now sender count = record {
    at = λ u h.
        unfold read_inbox in IsEnd-trans (fetched-Shrinks a now (address_text sender) count u.db) h;
  }

  -- How a run from a world ended: what an agent has to fetch is some end of what it had, and of what
  -- the answer says behind it.
  abbrev pub Mails :
      {A : Type 0} → (Text → A → List Text) → Exec (World v) (Failure Meta) A → Type 0
  Mails told m =
      (a : Text) (w : World v)
      → CursorsAreIssued v laws json w
      → IsEnd (ids a (m w).1.db) (ids a w.db ++ told_by told a (m w).0)
