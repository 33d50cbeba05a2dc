-- ===== src/Ops/Mail/Requests.antt =====
-- What a request brings to an inbox.
use muster_chat.Base.{
  ℕ, ◌<◌, ◌≡◌, refl, Bool, true, false, List, [], ◌++◌, append-nil, Result, ok, err, Text, codes,
  ◌==◌, if◌then◌else◌,
}
use muster_chat.Base.Ends.{IsEnd, IsEnd-same}
use muster_chat.Base.Exec.{Exec, continue, ◌>>=◌, pure, reads}
use muster_chat.Base.Handlers.{Keeps, Keeps-reads}
use muster_chat.Valkey.{Valkey, Laws, Json}
use muster_chat.Identity.{Address}
use muster_chat.Auth.{Identity}
use muster_chat.Config.{Config}
use muster_chat.Store.Deliver.{World}
use muster_chat.Ops.Types.{Args, Failure}
use muster_chat.Ops.Chat.{op_chat, op_fetch}
use muster_chat.Ops.Roster.{op_roster}
use muster_chat.Ops.Announce.{op_announce}
use muster_chat.Ops.Dispatch.{
  Reply, chat_reply, fetch_reply, roster_reply, announce_reply, dispatch,
}
use muster_chat.Ops.Dispatch.Cursors.{op_announce-Keeps, op_fetch-Keeps}
use muster_chat.Ops.Mail.{
  chatted, brought, told_by, ids, Shrinks, Mails, check_rate-Shrinks, broadcast-Shrinks,
  read_inbox-Shrinks,
}
use muster_chat.Ops.Mail.Chats.{op_chat-Mails}

module _ (v : Valkey) (laws : Laws v) (json : Json) where
  open v use {Db, cell}
  open laws use {frame_xadd}
  open json use {Meta}

  -- An answer that is made of another tells the same.
  Mails-renamed :
      {A : Type 0} (told : Text → A → List Text) (m : Exec (World v) (Failure Meta) A)
      (f : A → Reply Meta)
      → ((a : Text) (x : A) → told a x ≡ brought a (f x))
      → Mails v laws json told m
      → Mails v laws json brought (m >>= λ x. pure (f x))
  Mails-renamed {A} told m f same h a w issued = ended (m w).0 (m w).1 (h a w issued)
    where
      ended :
          (r : Result (Failure Meta) A) (u : World v)
          → IsEnd (ids v laws json a u.db) (ids v laws json a w.db ++ told_by told a r)
          → IsEnd (ids v laws json a (continue r (λ x. pure (f x)) u).1.db) (
              ids v laws json a w.db
              ++ told_by brought a
                  (continue r (λ x. pure {S = World v} {E = Failure Meta} (f x)) u).0)
      ended (ok x) u k = rw (← same a x) k
      ended (err e) u k = k

  -- What only shrinks an inbox.
  Keeps-Mails :
      {A : Type 0} (m : Exec (World v) (Failure Meta) A) (f : A → Reply Meta)
      → ((a : Text) (x : A) → [] ≡ brought a (f x))
      → ((a : Text) (w : World v) → Keeps (Shrinks v laws json a w) m)
      → Mails v laws json brought (m >>= λ x. pure (f x))
  Keeps-Mails {A} m f same h = Mails-renamed (λ a x. []) m f same λ a w issued. ended a w (m w).0
    where
      ended :
          (a : Text) (w : World v) (r : Result (Failure Meta) A)
          → IsEnd (ids v laws json a (m w).1.db) (ids v laws json a w.db ++ told_by (λ b x. []) a r)
      ended a w (ok x) = rw (append-nil (ids v laws json a w.db)) ((h a w).at w (IsEnd-same refl))
      ended a w (err e) = rw (append-nil (ids v laws json a w.db)) ((h a w).at w (IsEnd-same refl))

  Mails-if :
      (t : Bool) (m n : Exec (World v) (Failure Meta) (Reply Meta))
      → Mails v laws json brought m
      → Mails v laws json brought n
      → Mails v laws json brought (if t then m else n)
  Mails-if true m n hm hn = hm
  Mails-if false m n hm hn = hn

  -- However a request ends, what an agent has to fetch is some end of what it had to fetch, with the
  -- message of an accepted chat to it behind.
  pub dispatch-Mails :
      (cfg : Config) (now : ℕ) (ident : Identity) (sender : Address) (args : Args) (name : Text)
      → 0 < cfg.inbox_maxlen
      → Mails v laws json brought (dispatch v json cfg now ident sender name args)
  unfolding dispatch
  dispatch-Mails cfg now ident sender args name capped =
      Mails-if (name == codes "chat") _ _
        (Mails-renamed chatted (op_chat v json cfg now ident sender args) chat_reply (λ a x. refl)
          (op_chat-Mails v laws json cfg now ident sender args capped))
        (Mails-if (name == codes "fetch") _ _
          (Keeps-Mails (op_fetch v json now sender args) fetch_reply (λ a x. refl)
            λ a w.
              op_fetch-Keeps v laws json cfg now ident sender args (Shrinks v laws json a w)
                (read_inbox-Shrinks v laws json a w now sender))
          (Mails-if (name == codes "roster") _ _
            (Keeps-Mails (reads (op_roster v json ident sender args)) roster_reply (λ a x. refl)
              λ a w. Keeps-reads _)
            (Mails-if (name == codes "announce") _ _
              (Keeps-Mails (op_announce v json cfg ident sender args) announce_reply (λ a x. refl)
                λ a w.
                  op_announce-Keeps v laws json cfg now ident sender args (Shrinks v laws json a w)
                    (check_rate-Shrinks v laws json a w) (broadcast-Shrinks v laws json a w))
              (λ a w issued. rw (append-nil (ids v laws json a w.db)) (IsEnd-same refl)))))
