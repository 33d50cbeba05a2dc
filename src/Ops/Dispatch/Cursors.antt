-- ===== src/Ops/Dispatch/Cursors.antt =====
-- No request breaks a cursor.
use muster_chat.Base.{
  ℕ, ◌≡◌, refl, Bool, not, List, [], ◌∷◌, Option, ok, Text, codes, ◌==◌, leb, select,
}
use muster_chat.Base.Exec.{Exec, ◌>>=◌, pure, lift, reads, require}
use muster_chat.Base.Handlers.{Keeps, Keeps-reads, Keeps-lift, Keeps-require, Keeps-bind, Keeps-if}
use muster_chat.Valkey.{Valkey, Json, Laws}
use muster_chat.Identity.{Address, address_text}
use muster_chat.Auth.{Identity}
use muster_chat.Config.{Config}
use muster_chat.Store.Keys.{chat_kind, announce_kind}
use muster_chat.Store.Envelope.{or_text}
use muster_chat.Store.Agents.{Row}
use muster_chat.Store.Inbox.Fetch.{CursorIsIssued}
use muster_chat.Store.Inbox.Append.{append_message-CursorIsIssued}
use muster_chat.Store.Inbox.Cursor.{fetch_unread-CursorIsIssued_all}
use muster_chat.Store.Deliver.{World, Event, publish_deliver}
use muster_chat.Ops.Types.{
  body_arg, Args, arg, truthy, Failure, raised, message_too_large, self_send, project_required,
  text_arg, subject_arg, int_arg, count_arg,
}
use muster_chat.Ops.Checks.{visible_agents, resolve_reference, size, check_size, check_rate}
use muster_chat.Ops.Chat.{reference, send_chat, op_chat, read_inbox, op_fetch}
use muster_chat.Ops.Announce.{scope_of, is_eligible, publish_all, broadcast, op_announce}
use muster_chat.Ops.Roster.{op_roster}
use muster_chat.Ops.Refused.{check_rate-unread}
use muster_chat.Ops.Dispatch.{
  dispatch, Reply, chat_reply, fetch_reply, roster_reply, announce_reply,
}

module _ (v : Valkey) (laws : Laws v) (json : Json) where
  open json use {Meta}

  -- Every cursor is at the start or at an issued entry.
  abbrev pub CursorsAreIssued : World v → Type 0
  CursorsAreIssued w = (a : Text) → CursorIsIssued v laws a w.db

  check_rate-Keeps :
      (kind sender : Text) (limit window : ℕ)
      → Keeps CursorsAreIssued (check_rate v json kind sender limit window)
  check_rate-Keeps kind sender limit window = record {
    at = λ w h a. (check_rate-unread v laws json kind a sender limit window w).1 (h a);
  }

  pub publish_all-db :
      (event : Event) (agents : List (Row Meta)) (w : World v)
      → (publish_all v json event agents w).db ≡ w.db
  unfolding publish_all publish_deliver
  publish_all-db event [] w = refl
  publish_all-db event (a ∷ agents) w = publish_all-db event agents (publish_deliver a.addr event w)

  broadcast-Keeps :
      (event : Event) (agents : List (Row Meta))
      → Keeps CursorsAreIssued (broadcast v json event agents)
  broadcast-Keeps event agents = record {
    at = λ w h a. unfold broadcast in rw (publish_all-db event agents w) (h a);
  }

  send_chat-Keeps :
      (cfg : Config) (now : ℕ) (frm body : Text) (target : Row Meta) (subject : Option Text)
      (important : Bool)
      → Keeps CursorsAreIssued (send_chat v json cfg now frm target body subject important)
  send_chat-Keeps cfg now frm body target subject important = record {
    at = λ w h a.
        unfold send_chat publish_deliver in
        append_message-CursorIsIssued v laws now target.addr a _ cfg.inbox_maxlen cfg.message_ttl
          w.db (h a);
  }

  read_inbox-Keeps :
      (now : ℕ) (sender : Address) (count : ℕ)
      → Keeps CursorsAreIssued (read_inbox v json now sender count)
  read_inbox-Keeps now sender count = record {
    at = λ w h a.
        unfold read_inbox in
        fetch_unread-CursorIsIssued_all v laws now (address_text sender) a count w.db (h a);
  }

  module _ (cfg : Config) (now : ℕ) (ident : Identity) (sender : Address) (args : Args) where
    op_chat-Keeps : Keeps CursorsAreIssued (op_chat v json cfg now ident sender args)
    unfolding op_chat check_size
    op_chat-Keeps =
        let has_body = body_arg {Meta = Meta} (arg (codes "body") args) in
        let has_subject = subject_arg {Meta = Meta} (arg (codes "subject") args) in
        let frm = address_text sender in
        Keeps-bind (lift has_body) _ (Keeps-lift has_body) λ body.
          Keeps-bind (lift has_subject) _ (Keeps-lift has_subject) λ subject.
            Keeps-bind
              (require (leb (size body subject) cfg.body_max)
                (raised (message_too_large (size body subject) cfg.body_max)))
              _ (Keeps-require _ _)
              λ _. Keeps-bind (reads (visible_agents v json ident)) _ (Keeps-reads _) λ agents.
                let resolved = resolve_reference (reference (arg (codes "to") args)) agents in
                Keeps-bind (lift resolved) _ (Keeps-lift resolved) λ target.
                  Keeps-bind (require (not (target.addr == frm)) (raised self_send)) _
                    (Keeps-require _ _)
                    λ _.
                      Keeps-bind (check_rate v json chat_kind frm cfg.chat_rate cfg.rate_window) _
                        (check_rate-Keeps chat_kind frm cfg.chat_rate cfg.rate_window)
                        λ _.
                          send_chat-Keeps cfg now frm body target subject
                            (truthy (arg (codes "important") args))

    -- An announcement keeps what its rate check and its publishing keep, and a fetch what its reading
    -- keeps.
    pub op_announce-Keeps :
        (P : World v → Type 0)
        → ((kind from : Text) (limit window : ℕ)
            → Keeps P (check_rate v json kind from limit window))
        → ((event : Event) (agents : List (Row Meta)) → Keeps P (broadcast v json event agents))
        → Keeps P (op_announce v json cfg ident sender args)
    unfolding op_announce check_size
    op_announce-Keeps P counted published =
        let project = arg (codes "project") args in
        let has_body = body_arg {Meta = Meta} (arg (codes "body") args) in
        let has_subject = subject_arg {Meta = Meta} (arg (codes "subject") args) in
        let has_scope = text_arg {Meta = Meta} (arg (codes "scope") args) in
        let frm = address_text sender in
        Keeps-bind (require (truthy project) (raised project_required)) _ (Keeps-require _ _) λ _.
          Keeps-bind (lift has_body) _ (Keeps-lift has_body) λ body.
            Keeps-bind (lift has_subject) _ (Keeps-lift has_subject) λ subject.
              Keeps-bind
                (require (leb (size body subject) cfg.body_max)
                  (raised (message_too_large (size body subject) cfg.body_max)))
                _ (Keeps-require _ _)
                λ _. Keeps-bind (lift has_scope) _ (Keeps-lift has_scope) λ scope_text.
                  let in_own = scope_of {Meta = Meta} ident scope_text in
                  Keeps-bind (lift in_own) _ (Keeps-lift in_own) λ scope.
                    Keeps-bind
                      (check_rate v json announce_kind frm cfg.announce_rate cfg.rate_window) _
                      (counted announce_kind frm cfg.announce_rate cfg.rate_window)
                      λ _.
                        Keeps-bind (reads (visible_agents v json ident)) _ (Keeps-reads _) λ agents.
                          published (Event.announce frm (or_text subject []) body)
                            (select (is_eligible ident scope project frm) agents)

    pub op_fetch-Keeps :
        (P : World v → Type 0)
        → ((count : ℕ) → Keeps P (read_inbox v json now sender count))
        → Keeps P (op_fetch v json now sender args)
    unfolding op_fetch
    op_fetch-Keeps P reading =
        let asked = int_arg {Meta = Meta} (arg (codes "limit") args) in
        Keeps-bind (lift asked) _ (Keeps-lift asked) λ limit.
          let counted = count_arg {Meta = Meta} limit in
          Keeps-bind (lift counted) _ (Keeps-lift counted) reading

    answered :
        {A : Type 0} (m : Exec (World v) (Failure Meta) A) (f : A → Reply Meta)
        → Keeps CursorsAreIssued m
        → Keeps CursorsAreIssued (m >>= λ a. pure (f a))
    answered m f k = Keeps-bind m _ k λ a. Keeps-lift (ok (f a))

    dispatch-Keeps :
        (op : Text) → Keeps CursorsAreIssued (dispatch v json cfg now ident sender op args)
    unfolding dispatch
    dispatch-Keeps op =
        Keeps-if (op == codes "chat") _ _
          (answered (op_chat v json cfg now ident sender args) chat_reply op_chat-Keeps)
          (Keeps-if (op == codes "fetch") _ _
            (answered (op_fetch v json now sender args) fetch_reply
              (op_fetch-Keeps CursorsAreIssued (read_inbox-Keeps now sender)))
            (Keeps-if (op == codes "roster") _ _
              (answered (reads (op_roster v json ident sender args)) roster_reply (Keeps-reads _))
              (Keeps-if (op == codes "announce") _ _
                (answered (op_announce v json cfg ident sender args) announce_reply
                  (op_announce-Keeps CursorsAreIssued check_rate-Keeps broadcast-Keeps))
                (Keeps-lift _))))

    -- Whatever the request and however it ends, every cursor is at the start or at an issued entry
    -- afterwards, if every cursor was there before.
    pub dispatch-CursorIsIssued :
        (op : Text) (w : World v) (a : Text)
        → CursorsAreIssued w
        → CursorIsIssued v laws a (dispatch v json cfg now ident sender op args w).1.db
    dispatch-CursorIsIssued op w a h = (dispatch-Keeps op).at w h a
