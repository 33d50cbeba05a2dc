-- ===== src/App/Chats.antt =====
-- A chat from the request to the inbox of its recipient.
use mathlib.Core.Path.{subst}
use muster_chat.Base.{◌<◌, ◌≡◌, ◌≢◌, ap, ◌∙◌, [], ◌∷◌, ◌++◌, Option, some, ok, Text, codes, join}
use muster_chat.Valkey.{Valkey, Laws, Json}
use muster_chat.Identity.{slash, Address, address_text}
use muster_chat.Identity.Header.{client_half}
use muster_chat.Auth.{Identity, Doc, Outcome}
use muster_chat.Auth.Resolved.{Rests}
use muster_chat.Config.{Config}
use muster_chat.Ops.Types.{body_arg, Args, arg, truthy, subject_arg}
use muster_chat.Ops.Chat.{ChatReply, op_chat}
use muster_chat.Ops.Chat.Delivery.{Delivers, op_chat-Delivers}
use muster_chat.Ops.Dispatch.{chat_reply}
use muster_chat.Ops.Dispatch.Cursors.{CursorsAreIssued}
use muster_chat.Ops.Dispatch.Named.{dispatch-op_chat}
use muster_chat.App.{Request, Times, Server, header, answer, handle}
use muster_chat.App.Stamped.{asks, handle_sound}

-- The address whose user is stamped on a header.
abbrev pub stamp : Text → Text → Text
stamp user agent = user ++ (slash ∷ agent)

address_text-stamp :
    (a : Address) (user agent : Text)
    → a.user ≡ user
    → join (slash ∷ []) (client_half a) ≡ agent
    → address_text a ≡ stamp user agent
unfolding address_text
address_text-stamp a user agent u h =
    ap (λ t. t ++ (slash ∷ join (slash ∷ []) (client_half a))) u ∙ ap (stamp user) h

module _ (v : Valkey) (laws : Laws v) (json : Json) (digest : Text → Text) (repr : Doc → Text)
    (ask : Text → Text → Text → Outcome) (cfg : Config) where
  open json use {Meta}

  -- An identity that the key of a request stands for, and the arguments that the request has for the
  -- operation.
  abbrev pub Requested : Text → Times → Request → Server v → Identity → Args → Type 0
  Requested name t req s ident args =
      (header req.api_key ≢ [])
      × Rests digest repr ask cfg t.asked (header req.api_key) s.cache ident
      × (asks req.body ≡ some (name, args))

  pub Requested-chat :
      (t : Times) (req : Request) (s s' : Server v) (r : ChatReply)
      → handle v json digest repr ask cfg t req s ≡ (answer (chat_reply r), s')
      → (ident : Identity) × (addr : Address) × (args : Args) × Requested
          (codes "chat")
          t
          req
          s
          ident
          args
        × (address_text addr ≡ stamp ident.user_id (header req.agent))
        × (op_chat v json cfg t.wall ident addr args s.world ≡ (ok r, s'.world))
  Requested-chat t req s s' r h =
      let (ident, addr, who, name, args, asked, ran) =
        handle_sound v json digest repr ask cfg t req s s' (chat_reply r) h in
      let (named, chatted) =
        dispatch-op_chat v json cfg t.wall ident addr name args s.world s'.world r ran in
      (
        ident,
        addr,
        args,
        (who.keyed, who.rests, asked ∙ ap (λ (n : Text). some (n, args)) named),
        address_text-stamp addr ident.user_id (header req.agent) who.stamped who.named,
        chatted,
      )

  -- Where the inbox cap is positive and every cursor is at the start or at an issued entry, a
  -- request that is answered as a chat leaves its recipient with the message of the body to fetch,
  -- behind what was to be fetched before but for some of the oldest, and from the address made of
  -- the user that the key stands for and the header; and it is published to the recipient and to no
  -- other.
  pub handle-Delivers :
      (t : Times) (req : Request) (s s' : Server v) (r : ChatReply)
      → 0 < cfg.inbox_maxlen
      → CursorsAreIssued v laws json s.world
      → handle v json digest repr ask cfg t req s ≡ (answer (chat_reply r), s')
      → (ident : Identity) × (args : Args) × Requested (codes "chat") t req s ident args
        × (body : Text) × (subject : Option Text) × (body_arg {Meta = Meta}
              (arg (codes "body") args)
            ≡ ok body)
        × (subject_arg {Meta = Meta} (arg (codes "subject") args) ≡ ok subject)
        × Delivers v laws json cfg t.wall
            (stamp ident.user_id (header req.agent))
            body
            subject
            (truthy (arg (codes "important") args))
            s.world
            r
            s'.world
  handle-Delivers t req s s' r capped issued h =
      let (ident, addr, args, requested, stamped, ran) = Requested-chat t req s s' r h in
      let (body, subject, has_body, has_subject, delivered) =
        op_chat-Delivers v laws json cfg t.wall ident addr args s.world r s'.world capped issued
          ran in
      (
        ident,
        args,
        requested,
        body,
        subject,
        has_body,
        has_subject,
        subst
            (λ frm.
              Delivers v laws json cfg t.wall frm body subject
                (truthy (arg (codes "important") args)) s.world r s'.world)
            stamped delivered,
      )
