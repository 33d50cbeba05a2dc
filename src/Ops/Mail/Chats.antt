-- ===== src/Ops/Mail/Chats.antt =====
-- What a chat brings to an inbox.
use mathlib.Core.Path.{subst}
use muster_chat.Base.{
  ℕ, ◌<◌, ◌≡◌, ◌≢◌, refl, sym, ap, ◌∙◌, [], ◌∷◌, ◌++◌, map, append-nil, Result, ok, err, Text,
  Fields, codes, ◌==◌, ==_sound, ne_of_==, Bool-cases, inl, inr,
}
use muster_chat.Base.Ends.{IsEnd, IsEnd-same, IsEnd-trans, map-IsEnd_behind}
use muster_chat.Base.Handlers.{ended_alike}
use muster_chat.Valkey.{Valkey, Laws, Json, Entry}
use muster_chat.Identity.{Address, address_text}
use muster_chat.Auth.{Identity}
use muster_chat.Config.{Config}
use muster_chat.Store.Keys.{inbox_key, cursor_key, inbox-ne-cursor, inbox_key-injective}
use muster_chat.Store.Inbox.{append_message}
use muster_chat.Store.Inbox.Fetch.{unread, unread-frame}
use muster_chat.Store.Deliver.{World, publish_deliver}
use muster_chat.Ops.Types.{Args, Failure, arg, truthy}
use muster_chat.Ops.Chat.{ChatReply, FetchedMessage, fetched, send_chat, op_chat}
use muster_chat.Ops.Chat.Accepted.{chat_checked, op_chat_sound}
use muster_chat.Ops.Chat.Delivery.{op_chat-Delivers, checked_inbox, answer_of, end_of}
use muster_chat.Ops.Refused.{op_chat-Undelivered}
use muster_chat.Ops.Dispatch.Cursors.{CursorsAreIssued}
use muster_chat.Ops.Mail.{chatted, told_by, ids, Mails}

module _ (v : Valkey) (laws : Laws v) (json : Json) where
  open v use {Db, cell}
  open laws use {frame_xadd}
  open json use {Meta}

  append_message-others :
      (now : ℕ) (to a : Text) (fields : Fields) (maxlen ttl : ℕ) (db : Db)
      → to ≢ a
      → unread v laws a (append_message v now to fields maxlen ttl db).1 ≡ unread v laws a db
  unfolding append_message
  append_message-others now to a fields maxlen ttl db other =
      unread-frame v laws a db _
        (frame_xadd _ maxlen (inbox_key to) (inbox_key a) db
          (λ e. other (inbox_key-injective to a e)))
        (frame_xadd _ maxlen (inbox_key to) (cursor_key a) db (inbox-ne-cursor to a))

  module _ (cfg : Config) (now : ℕ) (ident : Identity) (sender : Address) (args : Args) where
    -- An accepted chat changes what nobody else has to fetch.
    op_chat-others :
        (a : Text) (w : World v) (r : ChatReply) (w' : World v)
        → op_chat v json cfg now ident sender args w ≡ (ok r, w')
        → r.to ≢ a
        → unread v laws a w'.db ≡ unread v laws a w.db
    op_chat-others a w r w' run other =
        let (body, subject, agents, target, may, sent) =
          op_chat_sound v json cfg now ident sender args w r w' run in
        let u : World v = record w { db = (chat_checked v json cfg now ident sender args w).1 } in
        let important = truthy (arg (codes "important") args) in
        let (er, ew) =
          ended_alike {E = Failure Meta}
            (answer_of v laws json cfg now (address_text sender) target body subject important u) r
            (end_of v laws json cfg now (address_text sender) target body subject important u) w'
            (unfold send_chat publish_deliver in sent) in
        ap (λ (x : World v). unread v laws a x.db) (sym ew)
        ∙ append_message-others now target.addr a _ cfg.inbox_maxlen cfg.message_ttl u.db
            (λ e. other (ap (λ (x : ChatReply). x.to) (sym er) ∙ e))
        ∙ (checked_inbox v laws json cfg now a (address_text sender) cfg.chat_rate cfg.rate_window
            w.db).0

    -- The message of an accepted chat comes behind what its recipient had to fetch.
    op_chat-received :
        (w : World v) (r : ChatReply) (w' : World v)
        → 0 < cfg.inbox_maxlen
        → CursorsAreIssued v laws json w
        → op_chat v json cfg now ident sender args w ≡ (ok r, w')
        → IsEnd (ids v laws json r.to w'.db) (ids v laws json r.to w.db ++ r.msg_id ∷ [])
    op_chat-received w r w' capped issued run =
        let (_, _, _, _, delivers) =
          op_chat-Delivers v laws json cfg now ident sender args w r w' capped issued run in
        let (e, m, q, f, _, _, _) = delivers in
        let same : e.id ≡ r.msg_id = unfold fetched in ap (λ (x : FetchedMessage). x.msg_id) f in
        subst (λ i. IsEnd (ids v laws json r.to w'.db) (ids v laws json r.to w.db ++ i ∷ [])) same
          (IsEnd-trans (IsEnd-same (ap (map (λ x. x.id)) q))
            (map-IsEnd_behind (λ (x : Entry). x.id) m e (unread v laws r.to w.db)))

    accepted-Mails :
        (a : Text) (w : World v) (r : ChatReply) (w' : World v)
        → 0 < cfg.inbox_maxlen
        → CursorsAreIssued v laws json w
        → op_chat v json cfg now ident sender args w ≡ (ok r, w')
        → IsEnd (ids v laws json a w'.db) (ids v laws json a w.db ++ chatted a r)
    accepted-Mails a w r w' capped issued run = elim (Bool-cases (r.to == a)) [
      | inl q ↦ rw q (
          subst (λ b. IsEnd (ids v laws json b w'.db) (ids v laws json b w.db ++ r.msg_id ∷ []))
            (==_sound r.to a q) (op_chat-received w r w' capped issued run))
      | inr q ↦
          rw (q, append-nil (ids v laws json a w.db))
            (IsEnd-same (ap (map (λ x. x.id)) (op_chat-others a w r w' run (ne_of_== r.to a q))))
    ]

    pub op_chat-Mails :
        0 < cfg.inbox_maxlen → Mails v laws json chatted (op_chat v json cfg now ident sender args)
    op_chat-Mails capped a w issued = ended (op_chat v json cfg now ident sender args w).0 refl
      where
        ended :
            (r : Result (Failure Meta) ChatReply)
            → (op_chat v json cfg now ident sender args w).0 ≡ r
            → IsEnd
                (ids v laws json a (op_chat v json cfg now ident sender args w).1.db)
                (ids v laws json a w.db ++ told_by chatted a r)
        ended (ok r) q =
            accepted-Mails a w r _ capped issued
              (ap (λ x. (x, (op_chat v json cfg now ident sender args w).1)) q)
        ended (err e) q = rw (append-nil (ids v laws json a w.db)) (
            IsEnd-same (
              ap (map (λ x. x.id))
                ((op_chat-Undelivered v laws json cfg ident sender args now w e q).0 a)))
