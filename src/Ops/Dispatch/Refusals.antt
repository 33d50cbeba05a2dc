-- ===== src/Ops/Dispatch/Refusals.antt =====
-- What an operation that is refused has not done.
use mathlib.Core.Bool.{true, false}
use muster_chat.Base.{ℕ, ◌≡◌, refl, Bool, err, Text, codes, ◌==◌, arith, if◌then◌else◌}
use muster_chat.Base.Exec.{Exec, ◌>>=◌, pure, reads}
use muster_chat.Base.Handlers.{renamed_state, renamed_error}
use muster_chat.Valkey.{Valkey, Laws, Json}
use muster_chat.Identity.{Address}
use muster_chat.Auth.{Identity}
use muster_chat.Config.{Config}
use muster_chat.Store.Deliver.{World}
use muster_chat.Ops.Types.{Args, OpError, Failure, raised}
use muster_chat.Ops.Chat.{op_chat, op_fetch}
use muster_chat.Ops.Chat.Crashing.{op_fetch-IsCrash}
use muster_chat.Ops.Roster.{op_roster}
use muster_chat.Ops.Announce.{op_announce}
use muster_chat.Ops.Refused.{Undelivered, op_chat-Undelivered, op_announce-Undelivered}
use muster_chat.Ops.Dispatch.{
  Reply, chat_reply, fetch_reply, roster_reply, announce_reply, dispatch,
}

module _ (v : Valkey) (laws : Laws v) (json : Json) where
  open json use {Meta}

  -- A refusal of `m` delivers nothing.
  abbrev RefusesSafely : {A : Type 0} → Exec (World v) (Failure Meta) A → Type 0
  RefusesSafely m =
      (w : World v) (e : OpError Meta)
      → (m w).0 ≡ err (raised e)
      → Undelivered v laws json w (m w).1

  RefusesSafely-renamed :
      {A : Type 0} (m : Exec (World v) (Failure Meta) A) (f : A → Reply Meta)
      → RefusesSafely m
      → RefusesSafely (m >>= λ a. pure (f a))
  RefusesSafely-renamed m f h w e q =
      rw (renamed_state {E = Failure Meta} (m w).0 f (m w).1)
        (h w e (renamed_error (m w).0 f (m w).1 (raised e) q))

  RefusesSafely-if :
      {A : Type 0} (t : Bool) (m n : Exec (World v) (Failure Meta) A)
      → RefusesSafely m
      → RefusesSafely n
      → RefusesSafely (if t then m else n)
  RefusesSafely-if t m n hm hn = elim t as (λ b. RefusesSafely (if b then m else n)) [
    | true ↦ hm
    | false ↦ hn
  ]

  module _ (cfg : Config) (now : ℕ) (ident : Identity) (sender : Address) (args : Args) where
    op_fetch-RefusesSafely : RefusesSafely (op_fetch v json now sender args)
    op_fetch-RefusesSafely w e q =
        let (c, same) = op_fetch-IsCrash v json now sender args w (raised e) q in
        absurd (ground arith)

    -- An operation that is refused, whichever, changes what no agent has to fetch, and publishes
    -- nothing.
    pub dispatch-Undelivered :
        (name : Text) (w : World v) (e : OpError Meta)
        → (dispatch v json cfg now ident sender name args w).0 ≡ err (raised e)
        → Undelivered v laws json w (dispatch v json cfg now ident sender name args w).1
    unfolding dispatch
    dispatch-Undelivered name =
        RefusesSafely-if (name == codes "chat") _ _
          (RefusesSafely-renamed (op_chat v json cfg now ident sender args) chat_reply
            λ w e q. op_chat-Undelivered v laws json cfg ident sender args now w (raised e) q)
          (RefusesSafely-if (name == codes "fetch") _ _
            (RefusesSafely-renamed (op_fetch v json now sender args) fetch_reply
              op_fetch-RefusesSafely)
            (RefusesSafely-if (name == codes "roster") _ _
              (RefusesSafely-renamed (reads (op_roster v json ident sender args)) roster_reply
                λ w e q. (λ b. refl, refl))
              (RefusesSafely-if (name == codes "announce") _ _
                (RefusesSafely-renamed (op_announce v json cfg ident sender args) announce_reply
                  λ w e q. op_announce-Undelivered v laws json cfg ident sender args w (raised e) q)
                (λ w e q. (λ b. refl, refl)))))
