-- ===== src/Channel/Tools/Chatting.antt =====
-- A chat from the tool of one agent to the tool of another, through the server.
use mathlib.Core.Path.{subst}
use muster_chat.Base.{
  Bool, decimal, is_empty, if◌then◌else◌, ◌++◌, ℕ, ◌+◌, ◌<◌, ◌≡◌, refl, sym, ap, ◌∙◌, List, [], ◌∷◌,
  Option, none, some, ok, map_err, ◌>>=◌, pos, Text, codes, ◌==◌,
}
use muster_chat.Valkey.{Valkey, Laws, Json}
use muster_chat.Identity.{Address, address_text, parse_agent_header}
use muster_chat.Auth.{Identity, Doc, Outcome, resolve}
use muster_chat.Auth.Resolved.{Rests}
use muster_chat.Config.{Config}
use muster_chat.Store.Inbox.Fetch.{unread}
use muster_chat.Ops.Types.{body_arg, Args, arg, int, text, truthy, int_arg, count_arg, subject_arg}
use muster_chat.Ops.Chat.{ChatReply, FetchedMessage, op_chat, op_fetch}
use muster_chat.Ops.Chat.Delivery.{received}
use muster_chat.Ops.Chat.Fetching.{op_chat-op_fetch}
use muster_chat.Ops.Dispatch.{chat_reply, fetch_reply}
use muster_chat.Ops.Dispatch.Cursors.{CursorsAreIssued}
use muster_chat.Ops.Dispatch.Named.{dispatch_fetch}
use muster_chat.App.{header, Times, Server, Response, op, op_name, answer, status, respond, handle}
use muster_chat.App.Stamped.{asks}
use muster_chat.App.Chats.{stamp, Requested-chat}
use muster_chat.App.Entered.{handle_entered}
use muster_chat.Bus
use muster_chat.Bus.{Came, MusterClient, Post, post_of, rpc}
use muster_chat.Bus.Answers.{sent_back, body_of, request_of}
use muster_chat.Store.Envelope.{or_text}
use muster_chat.Channel.{mail_line}
use muster_chat.Channel.Tools.{
  call_tool, tool_text, chat_tool, fetch_tool, chat_args, get_or, messages_of, chat_of,
  fetched_text, delivered_text,
}

-- The text of one message.
abbrev pub one_mail : ℕ → Text → Text → Option Text → Bool → Text
one_mail ts from body subject important =
    codes "Unread messages (now marked read):\n["
    ++ (decimal ts
        ++ (codes "] "
            ++ ((if important then codes "❗ " else [])
                ++ (codes "from "
                    ++ (from
                        ++ ((if is_empty (or_text subject [])
                              then []
                              else codes " [" ++ (or_text subject [] ++ codes "]"))
                            ++ (codes ": " ++ body)))))))

fetched_text-one :
    (msg_id : Text) (ts : ℕ) (from body : Text) (subject : Option Text) (important : Bool)
    → fetched_text (received msg_id ts from body subject important ∷ [])
      ≡ one_mail ts from body subject important
unfolding fetched_text mail_line or_text
fetched_text-one msg_id ts from body none important = refl
fetched_text-one msg_id ts from body (some []) important = refl
fetched_text-one msg_id ts from body (some (c ∷ s)) important = refl

abbrev args_of : Option (Text × Args) → Args
args_of none = []
args_of (some (name, args)) = args

same_args :
    (c : MusterClient) (name : Text) (request sent : Args) {n : Text}
    → asks (request_of (post_of c name request)).body ≡ some (n, sent)
    → sent ≡ request
unfolding request_of post_of
same_args c name request sent h = ap args_of (sym h)

module _ (v : Valkey) (laws : Laws v) (json : Json) (digest : Text → Text) (repr : Doc → Text)
    (ask : Text → Text → Text → Outcome) (cfg : Config) (prose : Response json.Meta → Text) where
  open json use {Meta}

  -- what a request of a client comes back as
  abbrev pub over : Times → Server v → Post → Came Meta
  over t s p = sent_back prose (handle v json digest repr ask cfg t (request_of p) s).0

  -- the request of the fetch tool with no arguments
  abbrev plain_fetch : Args
  plain_fetch = (codes "limit", int (pos 20)) ∷ []

  fetch_answer :
      (t : Times) (c : MusterClient) (s : Server v) (ident : Identity) (reader : Address)
      (ms : List FetchedMessage)
      → (resolve digest repr ask cfg t.asked t.settled c.api_key s.cache).0 ≡ ok ident
      → parse_agent_header ident.user_id c.agent ≡ ok reader
      → (op_fetch v json t.wall reader plain_fetch s.world).0 ≡ ok ms
      → (handle v json digest repr ask cfg t
          (request_of (post_of c (codes "fetch") plain_fetch))
          s).0
        ≡ answer (fetch_reply ms)
  unfolding request_of post_of header op_name respond
  fetch_answer t c s ident reader ms keyed named run =
      handle_entered v json digest repr ask cfg t (some c.api_key) (some c.agent)
        (text (codes "fetch")) plain_fetch s ident reader keyed named
      ∙ ap (λ x. respond (map_err op x))
          (dispatch_fetch v json cfg t.wall ident reader plain_fetch s.world ms run)

  -- what the fetch tool shows of an answer of the server
  shown_of : Text → Response Meta → Text
  shown_of url x =
      tool_text url
        (Bus.received (sent_back prose x) >>= λ res. messages_of res >>= λ ms. ok (fetched_text ms))

  fetch_tool-text :
      (t : Times) (c : MusterClient) (s : Server v) (url : Text) (branch : Meta → Text) (now : ℕ)
      (ms : List FetchedMessage)
      → (handle v json digest repr ask cfg t
          (request_of (post_of c (codes "fetch") plain_fetch))
          s).0
        ≡ answer (fetch_reply ms)
      → call_tool url c branch now (over t s) (codes "fetch") (some []) ≡ fetched_text ms
  unfolding call_tool fetch_tool rpc ◌==◌ get_or shown_of sent_back body_of messages_of fetched_text
      status
  fetch_tool-text t c s url branch now ms h = ap (shown_of url) h

  -- what the chat tool shows of an answer of the server
  told_of : Text → Response Meta → Text
  told_of url x =
      tool_text url
        (Bus.received (sent_back prose x) >>= λ res. chat_of res >>= λ r. ok (delivered_text r))

  chat_tool-text :
      (t : Times) (c : MusterClient) (s : Server v) (url : Text) (branch : Meta → Text) (now : ℕ)
      (args : Option Args) (request : Args) (r : ChatReply)
      → chat_args {Meta = Meta} args ≡ ok request
      → (handle v json digest repr ask cfg t (request_of (post_of c (codes "chat") request)) s).0
        ≡ answer (chat_reply r)
      → call_tool url c branch now (over t s) (codes "chat") args ≡ delivered_text r
  unfolding call_tool chat_tool rpc ◌==◌ told_of sent_back body_of chat_of delivered_text status
  chat_tool-text t c s url branch now args request r built h = rw built (ap (told_of url) h)

  -- A chat that the server answers, to an agent with nothing to fetch, is reported as delivered by
  -- the tool of its sender, and is the one message that the fetch tool of that agent shows, from
  -- the stamped sender and as it was sent, if it fetches before the message expires; the inbox cap
  -- is positive and every cursor is at the start or at an issued entry.
  pub chat_tool-fetch_tool :
      (t later : Times) (s s' : Server v) (sender reader : MusterClient) (args : Option Args)
      (request : Args) (r : ChatReply) (ident : Identity) (addr : Address) (url : Text)
      (branch : Meta → Text) (now : ℕ)
      → 0 < cfg.inbox_maxlen
      → CursorsAreIssued v laws json s.world
      → chat_args {Meta = Meta} args ≡ ok request
      → handle v json digest repr ask cfg t (request_of (post_of sender (codes "chat") request)) s
        ≡ (answer (chat_reply r), s')
      → (resolve digest repr ask cfg later.asked later.settled reader.api_key s'.cache).0 ≡ ok ident
      → parse_agent_header ident.user_id reader.agent ≡ ok addr
      → address_text addr ≡ r.to
      → unread v laws r.to s.world.db ≡ []
      → later.wall < t.wall + cfg.message_ttl
      → (from : Identity) × Rests digest repr ask cfg t.asked sender.api_key s.cache from
        × (body : Text) × (subject : Option Text) × (body_arg {Meta = Meta}
              (arg (codes "body") request)
            ≡ ok body)
        × (subject_arg {Meta = Meta} (arg (codes "subject") request) ≡ ok subject)
        × (call_tool url sender branch now (over t s) (codes "chat") args ≡ delivered_text r)
        × (call_tool url reader branch now (over later s') (codes "fetch") (some [])
            ≡ one_mail t.wall
                (stamp from.user_id sender.agent)
                body
                subject
                (truthy (arg (codes "important") request)))
  unfolding request_of post_of header truthy fetched_text
  chat_tool-fetch_tool t later s s' sender reader args request r ident addr url branch now capped
        issued built told keyed named to none_before early =
      let (from, source, sent, (has_key, rests, asked), stamped, ran) =
        Requested-chat v laws json digest repr ask cfg t
          (request_of (post_of sender (codes "chat") request)) s s' r told in
      let ran' =
        subst (λ a. op_chat v json cfg t.wall from source a s.world ≡ (ok r, s'.world))
          (same_args sender (codes "chat") request sent asked) ran in
      let (body, subject, has_body, has_subject, fetched) =
        op_chat-op_fetch v laws json cfg t.wall from source request s.world r s'.world later.wall
          addr plain_fetch (pos 20) 20 capped issued ran' to none_before early
          (unfold int_arg arg ◌==◌ in refl) (unfold count_arg in refl) in
      let urgent = truthy (arg (codes "important") request) in
      (
        from,
        rests,
        body,
        subject,
        has_body,
        has_subject,
        chat_tool-text t sender s url branch now args request r built (ap (λ p. p.0) told),
        fetch_tool-text later reader s' url branch now _
              (fetch_answer later reader s' ident addr _ keyed named fetched)
            ∙ ap (λ frm. fetched_text (received r.msg_id t.wall frm body subject urgent ∷ []))
                stamped
            ∙ fetched_text-one r.msg_id t.wall _ body subject urgent,
      )
