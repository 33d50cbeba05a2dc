-- ===== src/Ops/Chat.antt =====
-- `op_chat` and `op_fetch`.
pub mod Accepted
pub mod Delivery
pub mod Fetching
pub mod Crashing
use muster_chat.Base.{
  ℕ, ◌≡◌, Bool, true, false, not, List, [], ◌∷◌, ◌++◌, Option, none, some, Result, ok, err, Text,
  Fields, codes, ◌==◌, map, lookup, if◌then◌else◌,
}
use muster_chat.Base.Exec.{Exec, ◌>>=◌, ◌>>◌, pure, lift, reads, require}
use muster_chat.Valkey.{Valkey, Json, Entry}
use muster_chat.Identity.{Address, address_text}
use muster_chat.Auth.{Identity}
use muster_chat.Config.{Config}
use muster_chat.Store.Keys.{chat_kind}
use muster_chat.Store.Envelope.{envelope, subject_max}
use muster_chat.Store.Agents.{Row, Crash, item_or}
use muster_chat.Store.Inbox.{append_message, fetch_unread}
use muster_chat.Store.Deliver.{World, publish_deliver, Event}
use muster_chat.Ops.Types.{
  body_arg, Args, arg, truthy, Value, OpError, self_send, Failure, raised, crashed, Handler,
  text_arg, subject_arg, int_arg, count_arg, text,
}
use muster_chat.Ops.Checks.{visible_agents, resolve_reference, check_size, check_rate}

pub record ChatReply : Type 0 where
  pub msg_id : Text
  pub to : Text
  pub status : Text

-- `args.get("to") or ""`; a value that is no text equals no slice of an address, as the empty text
unfoldable pub reference : Value → Text
reference (text t) = t
reference v = []

-- `if subject: fields["subject"] = subject`
unfoldable pub subject_field : Option Text → Fields
subject_field none = []
subject_field (some s) = (codes "subject", s) ∷ []

unfoldable pub chat_fields : Text → Text → Text → Bool → Option Text → Fields
unfolding subject_field
chat_fields frm body env important subject =
    (codes "from", frm)
    ∷ (codes "kind", codes "chat")
    ∷ (codes "body", body)
    ∷ (codes "summary", env)
    ∷ (codes "important", if important then codes "1" else codes "0")
    ∷ subject_field subject

module _ (v : Valkey) (json : Json) where
  open json use {Meta}

  -- the message is stored, and then its recipient's stream is told
  unfoldable pub send_chat :
      Config → ℕ → Text → Row Meta → Text → Option Text → Bool → Handler v Meta ChatReply
  send_chat cfg now frm target body subject important w =
      let env = envelope subject_max frm body subject important in
      let (msg_id, db') =
        append_message v now target.addr (chat_fields frm body env important subject)
          cfg.inbox_maxlen cfg.message_ttl w.db in
      (
        ok (record { msg_id = msg_id; to = target.addr; status = target.status }),
        publish_deliver target.addr (Event.chat msg_id frm env important) (record w { db = db' }),
      )

  unfoldable pub op_chat : Config → ℕ → Identity → Address → Args → Handler v Meta ChatReply
  op_chat cfg now ident sender args = do
    body ← lift (body_arg (arg (codes "body") args))
    subject ← lift (subject_arg (arg (codes "subject") args))
    let important = truthy (arg (codes "important") args)
    check_size v json body subject cfg.body_max
    agents ← reads (visible_agents v json ident)
    target ← lift (resolve_reference (reference (arg (codes "to") args)) agents)
    require (not (target.addr == address_text sender)) (raised self_send)
    check_rate v json chat_kind (address_text sender) cfg.chat_rate cfg.rate_window
    send_chat cfg now (address_text sender) target body subject important

-- A message as `op_fetch` answers with it.
pub record FetchedMessage : Type 0 where
  pub msg_id : Text
  pub from : Text
  pub kind : Text
  pub subject : Text
  pub body : Text
  pub ts : Text
  pub important : Bool

unfoldable pub fetched : Entry → FetchedMessage
fetched m = record {
  msg_id = m.id;
  from = item_or (codes "from") [] m.fields;
  kind = item_or (codes "kind") [] m.fields;
  subject = item_or (codes "subject") [] m.fields;
  body = item_or (codes "body") [] m.fields;
  ts = item_or (codes "ts") [] m.fields;
  important = item_or (codes "important") [] m.fields == codes "1";
}

module _ (v : Valkey) (json : Json) where
  open json use {Meta}

  fetched_all : Result Crash (List Entry) → Result (Failure Meta) (List FetchedMessage)
  fetched_all (ok ms) = ok (map fetched ms)
  fetched_all (err e) = err (crashed e)

  -- the read and the answer that is made of it
  unfoldable pub read_inbox : ℕ → Address → ℕ → Handler v Meta (List FetchedMessage)
  unfolding fetched_all fetched
  read_inbox now sender count w =
      let (r, db') = fetch_unread v now (address_text sender) count w.db in
      (fetched_all r, record w { db = db' })

  unfoldable pub op_fetch : ℕ → Address → Args → Handler v Meta (List FetchedMessage)
  op_fetch now sender args = do
    limit ← lift (int_arg (arg (codes "limit") args))
    count ← lift (count_arg limit)
    read_inbox now sender count
