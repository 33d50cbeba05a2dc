-- ===== src/Ops/Chat/Delivery.antt =====
-- An accepted chat is what its recipient fetches next.
use mathlib.Core.Path.{subst₂}
use muster_chat.Base.{
  pos, ◌+◌, ℕ, ◌≤◌, ◌<◌, ◌≡◌, ◌⊎◌, refl, ap, ◌∙◌, Bool, true, false, [], ◌∷◌, ◌++◌, Option, none,
  some, ok, Text, codes, ◌==◌, drop, length, lookup, put, decimal,
}
use muster_chat.Valkey.{Valkey, Json, Laws, Entry}
use muster_chat.Identity.{Address, address_text}
use muster_chat.Auth.{Identity}
use muster_chat.Config.{Config}
use muster_chat.Store.Keys.{
  chat_kind, notify_channel, inbox_key, cursor_key, rate-ne-inbox, rate-ne-cursor,
}
use muster_chat.Store.Envelope.{envelope, subject_max}
use muster_chat.Store.Agents.{Row, item_or}
use muster_chat.Store.Rate.{rate_check}
use muster_chat.Store.Rate.Frame.{rate_check_frame}
use muster_chat.Store.Inbox.{append_message, stamp}
use muster_chat.Store.Inbox.Fetch.{unread, unread-frame, CursorIsIssued, CursorIsIssued-frame}
use muster_chat.Store.Inbox.Append.{append_message_lem, appended}
use muster_chat.Store.Inbox.Expiry.{expiry, expiry-stamp}
use muster_chat.Store.Deliver.{World, Event, publish_deliver}
use muster_chat.Ops.Types.{body_arg, Args, arg, truthy, subject_arg}
use muster_chat.Ops.Chat.{
  ChatReply, FetchedMessage, fetched, chat_fields, subject_field, send_chat, op_chat,
}
use muster_chat.Ops.Chat.Accepted.{chat_checked, op_chat_sound}
use muster_chat.Base.Handlers.{ended_alike}

abbrev text_of : Option Text → Text
text_of none = []
text_of (some s) = s

-- What the recipient of a chat is answered with.
abbrev pub received : Text → ℕ → Text → Text → Option Text → Bool → FetchedMessage
received msg_id now frm body subject important = record {
  msg_id = msg_id;
  from = frm;
  kind = chat_kind;
  subject = text_of subject;
  body = body;
  ts = decimal now;
  important = important;
}

-- The stored fields read back as the message.
fetched-chat :
    (msg_id : Text) (now ttl : ℕ) (frm body env : Text) (important : Bool) (subject : Option Text)
    → fetched (record {
      id = msg_id;
      fields = stamp now ttl (chat_fields frm body env important subject);
    })
      ≡ received msg_id now frm body subject important
unfolding fetched stamp chat_fields subject_field item_or lookup put ◌==◌
fetched-chat msg_id now ttl frm body env true none = refl
fetched-chat msg_id now ttl frm body env false none = refl
fetched-chat msg_id now ttl frm body env true (some s) = refl
fetched-chat msg_id now ttl frm body env false (some s) = refl

module _ (v : Valkey) (laws : Laws v) (json : Json) (cfg : Config) (now : ℕ) where
  open v use {Db, cell, entries}
  open json use {Meta}

  -- What a chat from `w` that ends in `w'` has done: its recipient has the message to fetch, behind
  -- what it had to fetch before but for some of the oldest, which are dropped only from an inbox that
  -- still holds `inbox_maxlen` entries; it expires `message_ttl`
  -- later; and the recipient's stream is told, and no other.
  abbrev pub Delivers : Text → Text → Option Text → Bool → World v → ChatReply → World v → Type 0
  Delivers frm body subject important w r w' =
      (e : Entry) × (m : ℕ) × (unread v laws r.to w'.db
        ≡ drop m (unread v laws r.to w.db) ++ e ∷ [])
      × (fetched e ≡ received r.msg_id now frm body subject important)
      × (expiry e ≡ ok (pos (now + cfg.message_ttl)))
      × ((m ≡ 0) ⊎ (cfg.inbox_maxlen ≤ length (entries (cell w'.db (inbox_key r.to)))))
      × (w'.sent
          ≡ w.sent
            ++ record {
              channel = notify_channel r.to;
              event =
                  Event.chat r.msg_id frm (envelope subject_max frm body subject important)
                    important;
            }
              ∷ [])

  -- the answer and the end of `send_chat`
  abbrev pub answer_of : Text → Row Meta → Text → Option Text → Bool → World v → ChatReply
  answer_of frm target body subject important w =
      let env = envelope subject_max frm body subject important in
      record {
        msg_id =
            (append_message v now target.addr (chat_fields frm body env important subject)
              cfg.inbox_maxlen cfg.message_ttl w.db).0;
        to = target.addr;
        status = target.status;
      }

  abbrev pub end_of : Text → Row Meta → Text → Option Text → Bool → World v → World v
  end_of frm target body subject important w =
      let env = envelope subject_max frm body subject important in
      let r = answer_of frm target body subject important w in
      record {
        db =
            (append_message v now target.addr (chat_fields frm body env important subject)
              cfg.inbox_maxlen cfg.message_ttl w.db).1;
        sent =
            w.sent
            ++ record {
              channel = notify_channel target.addr;
              event = Event.chat r.msg_id frm env important;
            }
              ∷ [];
      }

  end_Delivers :
      (frm : Text) (target : Row Meta) (body : Text) (subject : Option Text) (important : Bool)
      (w : World v)
      → 0 < cfg.inbox_maxlen
      → CursorIsIssued v laws target.addr w.db
      → Delivers frm body subject important w
          (answer_of frm target body subject important w)
          (end_of frm target body subject important w)
  end_Delivers frm target body subject important w capped h =
      let env = envelope subject_max frm body subject important in
      let fs = chat_fields frm body env important subject in
      let (m, q, room) =
        append_message_lem v laws now target.addr fs cfg.inbox_maxlen cfg.message_ttl w.db capped
          h in
      (
        appended v laws now target.addr fs cfg.inbox_maxlen cfg.message_ttl w.db,
        m,
        q,
        fetched-chat _ now cfg.message_ttl frm body env important subject,
        expiry-stamp (answer_of frm target body subject important w).msg_id now cfg.message_ttl fs,
        room,
        refl,
      )

  send_chat_lem :
      (frm : Text) (target : Row Meta) (body : Text) (subject : Option Text) (important : Bool)
      (w : World v)
      → 0 < cfg.inbox_maxlen
      → CursorIsIssued v laws target.addr w.db
      → (r : ChatReply) (w' : World v)
      → send_chat v json cfg now frm target body subject important w ≡ (ok r, w')
      → Delivers frm body subject important w r w'
  unfolding send_chat publish_deliver
  send_chat_lem frm target body subject important w capped h r w' run =
      let (er, ew) =
        ended_alike (answer_of frm target body subject important w) r
          (end_of frm target body subject important w) w' run in
      subst₂ (Delivers frm body subject important w) er ew
        (end_Delivers frm target body subject important w capped h)

  -- a rate check changes neither what an agent has to fetch nor its cursor
  pub checked_inbox :
      (a frm : Text) (limit window : ℕ) (db : Db)
      → (unread v laws a (rate_check v chat_kind frm limit window db).1 ≡ unread v laws a db)
        × (CursorIsIssued v laws a db
            → CursorIsIssued v laws a (rate_check v chat_kind frm limit window db).1)
  checked_inbox a frm limit window db =
      let i =
        rate_check_frame v laws chat_kind frm (inbox_key a) limit window db
          (rate-ne-inbox chat_kind frm a) in
      let c =
        rate_check_frame v laws chat_kind frm (cursor_key a) limit window db
          (rate-ne-cursor chat_kind frm a) in
      (unread-frame v laws a db _ i c, CursorIsIssued-frame v laws a db _ i c)

module _ (v : Valkey) (laws : Laws v) (json : Json) (cfg : Config) (now : ℕ) (ident : Identity)
    (sender : Address) (args : Args) where
  open json use {Meta}

  from_checked :
      (w : World v) (r : ChatReply) (w' : World v) (frm body : Text) (subject : Option Text)
      → Delivers v laws json cfg now frm body subject
          (truthy (arg (codes "important") args))
          (record w {
            db =
                (rate_check v chat_kind (address_text sender) cfg.chat_rate cfg.rate_window w.db).1;
          })
          r
          w'
      → Delivers v laws json cfg now frm body subject (truthy (arg (codes "important") args)) w r w'
  from_checked w r w' frm body subject (e, m, q, f, x, room, sent) =
      let (same, _) =
        checked_inbox v laws json cfg now r.to (address_text sender) cfg.chat_rate cfg.rate_window
          w.db in
      (e, m, q ∙ ap (λ l. drop m l ++ e ∷ []) same, f, x, room, sent)

  -- Where the inbox cap is positive and every cursor is at the start or at an issued entry, an
  -- accepted chat leaves its recipient with the message of the request to fetch, from the address
  -- of the sender, behind what was to be fetched before but for some of the oldest; and it is
  -- published to the recipient and to no other.
  pub op_chat-Delivers :
      (w : World v) (r : ChatReply) (w' : World v)
      → 0 < cfg.inbox_maxlen
      → ((a : Text) → CursorIsIssued v laws a w.db)
      → op_chat v json cfg now ident sender args w ≡ (ok r, w')
      → (body : Text) × (subject : Option Text) × (body_arg {Meta = Meta} (arg (codes "body") args)
          ≡ ok body)
        × (subject_arg {Meta = Meta} (arg (codes "subject") args) ≡ ok subject)
        × Delivers v laws json cfg now
            (address_text sender)
            body
            subject
            (truthy (arg (codes "important") args))
            w
            r
            w'
  op_chat-Delivers w r w' capped issued run =
      let (body, subject, agents, target, may, e) =
        op_chat_sound v json cfg now ident sender args w r w' run in
      let frm = address_text sender in
      let (_, keeps) =
        checked_inbox v laws json cfg now target.addr frm cfg.chat_rate cfg.rate_window w.db in
      (
        body,
        subject,
        may.has_body,
        may.has_subject,
        from_checked w r w' frm body subject (
            send_chat_lem v laws json cfg now frm target body subject
              (truthy (arg (codes "important") args))
              (record w { db = (chat_checked v json cfg now ident sender args w).1 }) capped
              (keeps (issued target.addr)) r w' e),
      )
