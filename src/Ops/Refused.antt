-- ===== src/Ops/Refused.antt =====
-- A request that ends in an error has delivered nothing.
use muster_chat.Base.{
  ℕ, ◌≡◌, refl, ◌∙◌, Bool, not, List, [], Option, err, Text, codes, ◌==◌, leb, arith, select,
}
use muster_chat.Base.Exec.{lift, reads, require}
use muster_chat.Base.Handlers.{
  Keeps, KeepsOnError, Keeps-reads, Keeps-lift, Keeps-require, KeepsOnError-bind,
}
use muster_chat.Valkey.{Valkey, Json, Laws}
use muster_chat.Identity.{Address, address_text}
use muster_chat.Auth.{Identity}
use muster_chat.Config.{Config}
use muster_chat.Store.Keys.{
  chat_kind, announce_kind, inbox_key, cursor_key, rate-ne-inbox, rate-ne-cursor,
}
use muster_chat.Store.Envelope.{or_text}
use muster_chat.Store.Agents.{Row}
use muster_chat.Store.Rate.Frame.{rate_check_frame}
use muster_chat.Store.Inbox.Fetch.{unread, unread-frame, CursorIsIssued, CursorIsIssued-frame}
use muster_chat.Store.Deliver.{World, Event}
use muster_chat.Ops.Types.{
  body_arg, Args, arg, truthy, Failure, raised, message_too_large, self_send, project_required,
  text_arg, subject_arg,
}
use muster_chat.Ops.Checks.{visible_agents, resolve_reference, size, check_size, check_rate}
use muster_chat.Ops.Chat.{reference, send_chat, op_chat}
use muster_chat.Ops.Announce.{scope_of, is_eligible, broadcast, op_announce}

module _ (v : Valkey) (laws : Laws v) (json : Json) where
  open json use {Meta}

  -- A rate check changes neither what an agent has to fetch nor its cursor.
  pub check_rate-unread :
      (kind a sender : Text) (limit window : ℕ) (w : World v)
      → (unread v laws a (check_rate v json kind sender limit window w).1.db ≡ unread v laws a w.db)
        × (CursorIsIssued v laws a w.db
            → CursorIsIssued v laws a (check_rate v json kind sender limit window w).1.db)
  unfolding check_rate
  check_rate-unread kind a sender limit window w =
      let i =
        rate_check_frame v laws kind sender (inbox_key a) limit window w.db
          (rate-ne-inbox kind sender a) in
      let c =
        rate_check_frame v laws kind sender (cursor_key a) limit window w.db
          (rate-ne-cursor kind sender a) in
      (unread-frame v laws a w.db _ i c, CursorIsIssued-frame v laws a w.db _ i c)

  -- Nothing was delivered between two states: every agent has the same to fetch, and nothing was
  -- published.
  abbrev pub Undelivered : World v → World v → Type 0
  Undelivered w u = ((b : Text) → unread v laws b u.db ≡ unread v laws b w.db) × (u.sent ≡ w.sent)

  check_rate-Undelivered :
      (w : World v) (kind sender : Text) (limit window : ℕ)
      → Keeps (Undelivered w) (check_rate v json kind sender limit window)
  check_rate-Undelivered w kind sender limit window = record {
    at = λ u (same, sent). (
      λ b. (check_rate-unread kind b sender limit window u).0 ∙ same b,
      unfold check_rate in sent,
    );
  }

  module _ (cfg : Config) (ident : Identity) (sender : Address) (args : Args) where
    send_chat-Undelivered :
        (now : ℕ) (w : World v) (frm body : Text) (target : Row Meta) (subject : Option Text)
        (important : Bool)
        → KeepsOnError (Undelivered w) (send_chat v json cfg now frm target body subject important)
    send_chat-Undelivered now w frm body target subject important = record {
      at = λ u e h q. absurd (unfold send_chat in ground arith);
    }

    broadcast-Undelivered :
        (w : World v) (event : Event) (agents : List (Row Meta))
        → KeepsOnError (Undelivered w) (broadcast v json event agents)
    broadcast-Undelivered w event agents = record {
      at = λ u e h q. absurd (unfold broadcast in ground arith);
    }

    chat-Undelivered :
        (now : ℕ) (w : World v)
        → KeepsOnError (Undelivered w) (op_chat v json cfg now ident sender args)
    unfolding op_chat check_size
    chat-Undelivered now w =
        let has_body = body_arg {Meta = Meta} (arg (codes "body") args) in
        let has_subject = subject_arg {Meta = Meta} (arg (codes "subject") args) in
        let frm = address_text sender in
        KeepsOnError-bind (lift has_body) _ (Keeps-lift has_body) λ body.
          KeepsOnError-bind (lift has_subject) _ (Keeps-lift has_subject) λ subject.
            KeepsOnError-bind
              (require (leb (size body subject) cfg.body_max)
                (raised (message_too_large (size body subject) cfg.body_max)))
              _ (Keeps-require _ _)
              λ _.
                KeepsOnError-bind (reads (visible_agents v json ident)) _ (Keeps-reads _) λ agents.
                  let resolved = resolve_reference (reference (arg (codes "to") args)) agents in
                  KeepsOnError-bind (lift resolved) _ (Keeps-lift resolved) λ target.
                    KeepsOnError-bind (require (not (target.addr == frm)) (raised self_send)) _
                      (Keeps-require _ _)
                      λ _.
                        KeepsOnError-bind
                          (check_rate v json chat_kind frm cfg.chat_rate cfg.rate_window) _
                          (check_rate-Undelivered w chat_kind frm cfg.chat_rate cfg.rate_window)
                          λ _.
                            send_chat-Undelivered now w frm body target subject
                              (truthy (arg (codes "important") args))

    announce-Undelivered :
        (w : World v) → KeepsOnError (Undelivered w) (op_announce v json cfg ident sender args)
    unfolding op_announce check_size
    announce-Undelivered w =
        let project = arg (codes "project") args in
        let has_body = body_arg {Meta = Meta} (arg (codes "body") args) in
        let has_subject = subject_arg {Meta = Meta} (arg (codes "subject") args) in
        let has_scope = text_arg {Meta = Meta} (arg (codes "scope") args) in
        let frm = address_text sender in
        KeepsOnError-bind (require (truthy project) (raised project_required)) _ (Keeps-require _ _)
          λ _. KeepsOnError-bind (lift has_body) _ (Keeps-lift has_body) λ body.
            KeepsOnError-bind (lift has_subject) _ (Keeps-lift has_subject) λ subject.
              KeepsOnError-bind
                (require (leb (size body subject) cfg.body_max)
                  (raised (message_too_large (size body subject) cfg.body_max)))
                _ (Keeps-require _ _)
                λ _. KeepsOnError-bind (lift has_scope) _ (Keeps-lift has_scope) λ scope_text.
                  let in_own = scope_of {Meta = Meta} ident scope_text in
                  KeepsOnError-bind (lift in_own) _ (Keeps-lift in_own) λ scope.
                    KeepsOnError-bind
                      (check_rate v json announce_kind frm cfg.announce_rate cfg.rate_window) _
                      (check_rate-Undelivered w announce_kind frm cfg.announce_rate cfg.rate_window)
                      λ _.
                        KeepsOnError-bind (reads (visible_agents v json ident)) _ (Keeps-reads _)
                          λ agents.
                            broadcast-Undelivered w (Event.announce frm (or_text subject []) body)
                              (select (is_eligible ident scope project frm) agents)

    -- A chat that ends in an error, whichever, changes what no agent has to fetch, and publishes
    -- nothing.
    pub op_chat-Undelivered :
        (now : ℕ) (w : World v) (e : Failure Meta)
        → (op_chat v json cfg now ident sender args w).0 ≡ err e
        → Undelivered w (op_chat v json cfg now ident sender args w).1
    op_chat-Undelivered now w e q = (chat-Undelivered now w).at w e (λ b. refl, refl) q

    -- An announcement that ends in an error, whichever, changes what no agent has to fetch, and
    -- publishes nothing.
    pub op_announce-Undelivered :
        (w : World v) (e : Failure Meta)
        → (op_announce v json cfg ident sender args w).0 ≡ err e
        → Undelivered w (op_announce v json cfg ident sender args w).1
    op_announce-Undelivered w e q = (announce-Undelivered w).at w e (λ b. refl, refl) q
