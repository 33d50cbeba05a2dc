-- ===== src/Ops/Dispatch/Named.antt =====
-- Which handler an answer comes from.
use muster_chat.Base.{
  ℕ, List, refl, ◌≡◌, ap, ◌∙◌, ok, Text, codes, ◌==◌, ==_sound, arith, Bool-cases, inl, inr,
}
use muster_chat.Base.Exec.{Exec, ◌>>=◌, pure, reads}
use muster_chat.Base.Handlers.{after_step, ended_alike}
use muster_chat.Valkey.{Valkey, Json}
use muster_chat.Identity.{Address}
use muster_chat.Auth.{Identity}
use muster_chat.Config.{Config}
use muster_chat.Store.Deliver.{World}
use muster_chat.Ops.Types.{Args, Failure}
use muster_chat.Ops.Chat.{ChatReply, FetchedMessage, op_chat, op_fetch}
use muster_chat.Ops.Roster.{op_roster}
use muster_chat.Ops.Announce.{op_announce}
use muster_chat.Ops.Dispatch.{
  Reply, chat_reply, fetch_reply, roster_reply, announce_reply, dispatch,
}

-- The answer of a handler under the name of its operation.
answered_by :
    {S E A B C : Type 0} (m : Exec S E A) (f : A → B) (s s' : S) (b : B)
    → (m >>= λ a. pure (f a)) s ≡ (ok b, s')
    → ((a : A) → m s ≡ (ok a, s') → f a ≡ b → C)
    → C
answered_by {S} {E} {C} m f s s' b h k = after_step {C = C} m _ s h λ a u q l.
    let (same, same_state) = ended_alike {E = E} (f a) b u s' l in
    k a (q ∙ ap (λ w. (ok a, w)) same_state) same

chat_reply-injective :
    {Meta : Type 0} (a r : ChatReply) → ◌≡◌ {A = Reply Meta} (chat_reply a) (chat_reply r) → a ≡ r
chat_reply-injective a r h = cc

module _ (v : Valkey) (json : Json) (cfg : Config) (now : ℕ) (ident : Identity)
    (sender : Address) where
  open json use {Meta}

  -- Where the answer is that of a chat, a chat was run.
  pub dispatch-op_chat :
      (name : Text) (args : Args) (w w' : World v) (r : ChatReply)
      → dispatch v json cfg now ident sender name args w ≡ (ok (chat_reply r), w')
      → (name ≡ codes "chat") × (op_chat v json cfg now ident sender args w ≡ (ok r, w'))
  unfolding dispatch
  dispatch-op_chat name args w w' r h =
      let C : Type 0 =
        (name ≡ codes "chat") × (op_chat v json cfg now ident sender args w ≡ (ok r, w')) in
      elim (Bool-cases (name == codes "chat")) [
        | inl q ↦
            answered_by {E = Failure Meta} {C = C} (op_chat v json cfg now ident sender args)
              chat_reply w w' (chat_reply r) (rw q at h)
              λ a ran same. (
                ==_sound name _ q,
                ran ∙ ap (λ (x : ChatReply). (ok x, w')) (chat_reply-injective a r same),
              )
        | inr q ↦ elim (Bool-cases (name == codes "fetch")) [
          | inl f ↦
              answered_by {E = Failure Meta} {C = C} (op_fetch v json now sender args) fetch_reply w
                w' (chat_reply r) (rw (q, f) at h) λ a ran same. absurd (ground arith)
          | inr f ↦ elim (Bool-cases (name == codes "roster")) [
            | inl o ↦
                answered_by {E = Failure Meta} {C = C} (reads (op_roster v json ident sender args))
                  roster_reply w w' (chat_reply r) (rw (q, f, o) at h)
                  λ a ran same. absurd (ground arith)
            | inr o ↦ elim (Bool-cases (name == codes "announce")) [
              | inl n ↦
                  answered_by {E = Failure Meta} {C = C} (op_announce v json cfg ident sender args)
                    announce_reply w w' (chat_reply r) (rw (q, f, o, n) at h)
                    λ a ran same. absurd (ground arith)
              | inr n ↦ absurd (ground (arith, rw (q, f, o, n) at h))
            ]
          ]
        ]
      ]

  -- A fetch is answered with the messages that it reads.
  pub dispatch_fetch :
      (args : Args) (w : World v) (ms : List FetchedMessage)
      → (op_fetch v json now sender args w).0 ≡ ok ms
      → (dispatch v json cfg now ident sender (codes "fetch") args w).0 ≡ ok (fetch_reply ms)
  unfolding dispatch ◌==◌
  dispatch_fetch args w ms h = rw h refl
