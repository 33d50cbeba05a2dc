-- ===== src/Ops/Chat/Accepted.antt =====
-- Exactly when a chat is accepted, and what becomes of one that is not.
use mathlib.Core.Path.{subst}
use muster_chat.Base.{
  ℕ, ◌≤◌, ◌≡◌, ◌≢◌, refl, sym, ap, Bool, true, false, not, List, Option, Result, ok, err, Text,
  codes, ◌==◌, ==_iff, ==_of_ne, leb, leb_iff, arith, if◌then◌else◌,
}
use muster_chat.Base.Handlers.{after_reads, after_step, after_require, ended_alike}
use muster_chat.Valkey.{Valkey, Json}
use muster_chat.Identity.{Address, address_text, matches, visible}
use muster_chat.Auth.{Identity}
use muster_chat.Config.{Config}
use muster_chat.Store.Keys.{chat_kind}
use muster_chat.Store.Agents.{Row}
use muster_chat.Store.Rate.{rate_check}
use muster_chat.Store.Deliver.{World}
use muster_chat.Ops.Types.{body_arg, Args, arg, truthy, Failure, subject_arg}
use muster_chat.Ops.Checks.{visible_agents, resolve_reference, size, check_size, check_rate}
use muster_chat.Ops.Checks.Resolve.{resolve_reference-In, visible_agents-In}
use muster_chat.Ops.Chat.{ChatReply, reference, send_chat, op_chat}

module _ (v : Valkey) (json : Json) (cfg : Config) (now : ℕ) (ident : Identity) (sender : Address)
    (args : Args) where
  open json use {Meta}

  -- the rate check of a chat
  abbrev pub chat_checked : World v → (Bool × ℕ) × v.Db
  chat_checked w = rate_check v chat_kind (address_text sender) cfg.chat_rate cfg.rate_window w.db

  -- What a chat needs to be accepted: arguments of the right types, a size within the cap, one visible
  -- agent that the reference matches, other than the sender, and a rate within the limit.
  pub record MayChat (w : World v) (body : Text) (subject : Option Text) (agents : List (Row Meta))
      (target : Row Meta) : Type 0 where
    pub has_body : body_arg {Meta = Meta} (arg (codes "body") args) ≡ ok body
    pub has_subject : subject_arg {Meta = Meta} (arg (codes "subject") args) ≡ ok subject
    pub fits : size body subject ≤ cfg.body_max
    pub sees_agents : visible_agents v json ident w ≡ ok agents
    pub resolves : resolve_reference (reference (arg (codes "to") args)) agents ≡ ok target
    pub not_self : target.addr ≢ address_text sender
    pub in_rate : (chat_checked w).0.0 ≡ true

  -- the rest of an accepted chat
  abbrev pub sent_chat :
      World v → Text → Option Text → Row Meta → Result (Failure Meta) ChatReply × World v
  sent_chat w body subject target =
      send_chat v json cfg now (address_text sender) target body subject
        (truthy (arg (codes "important") args)) (record w { db = (chat_checked w).1 })

  check_rate_passes :
      (w : World v)
      → (chat_checked w).0.0 ≡ true
      → check_rate v json chat_kind (address_text sender) cfg.chat_rate cfg.rate_window w
        ≡ (ok tt, record w { db = (chat_checked w).1 })
  unfolding check_rate
  check_rate_passes w h = rw h

  -- A chat that has what it needs is accepted, and is counted, stored and published.
  pub op_chat_complete :
      (w : World v) (body : Text) (subject : Option Text) (agents : List (Row Meta))
      (target : Row Meta)
      → MayChat w body subject agents target
      → op_chat v json cfg now ident sender args w ≡ sent_chat w body subject target
  unfolding op_chat check_size
  op_chat_complete w body subject agents target h =
      let small : leb (size body subject) cfg.body_max ≡ true = (leb_iff _ _).1 h.fits in
      let other : (target.addr == address_text sender) ≡ false = ==_of_ne _ _ h.not_self in
      rw h.has_body (
        rw h.has_subject (
          rw small
            (rw h.sees_agents (rw h.resolves (rw other (rw (check_rate_passes w h.in_rate)))))))

  rate_passed :
      (e : Failure Meta) (b : Bool) (t u : World v)
      → ◌≡◌ {A = Result (Failure Meta) (Unit {0}) × World v}
          (if b then ok tt else err e, t)
          (ok tt, u)
      → (b ≡ true) × (t ≡ u)
  rate_passed e true t u h = (refl, ap (λ r. r.1) h)
  rate_passed e false t u h = absurd (ground arith)

  check_rate-ok :
      (w : World v) {t : World v}
      → check_rate v json chat_kind (address_text sender) cfg.chat_rate cfg.rate_window w
        ≡ (ok tt, t)
      → ((chat_checked w).0.0 ≡ true) × (record w { db = (chat_checked w).1 } ≡ t)
  unfolding check_rate
  check_rate-ok w {t} h =
      rate_passed _ (chat_checked w).0.0 (record w { db = (chat_checked w).1 }) t h

  other_agent : (s t : Text) → not (s == t) ≡ true → s ≢ t
  other_agent s t h e = ground (arith, ==_iff s t)

  -- What an accepted chat ran through.
  abbrev pub Run : World v → ChatReply → World v → Type 0
  Run w r w' =
      (body : Text) × (subject : Option Text) × (agents : List (Row Meta)) × (target : Row Meta)
      × MayChat w body subject agents target
      × (sent_chat w body subject target ≡ (ok r, w'))

  -- An accepted chat had arguments of the right types, a size within the cap, one visible agent
  -- that its reference matches, other than the sender, and a rate within the limit; and it was
  -- counted, stored and published.
  pub op_chat_sound :
      (w : World v) (r : ChatReply) (w' : World v)
      → op_chat v json cfg now ident sender args w ≡ (ok r, w')
      → Run w r w'
  unfolding op_chat check_size
  op_chat_sound w r w' h =
      after_reads {C = Run w r w'} (body_arg {Meta = Meta} (arg (codes "body") args)) _ w h
        λ body has_body h1.
          after_reads {C = Run w r w'} (subject_arg {Meta = Meta} (arg (codes "subject") args)) _ w
            h1
            λ subject has_subject h2.
              after_require {C = Run w r w'} (leb (size body subject) cfg.body_max) _ _ w h2
                λ small h3.
                  after_reads {C = Run w r w'} (visible_agents v json ident w) _ w h3
                    λ agents sees_agents h4.
                      after_reads {C = Run w r w'}
                        (resolve_reference (reference (arg (codes "to") args)) agents) _ w h4
                        λ target resolves h5.
                          after_require {C = Run w r w'} (not (target.addr == address_text sender))
                            _ _ w h5
                            λ other h6.
                              after_step {C = Run w r w'}
                                (check_rate v json chat_kind (address_text sender) cfg.chat_rate
                                  cfg.rate_window)
                                _ w h6
                                λ u t passed h7.
                                  let (in_rate, e) = check_rate-ok w passed in
                                  (
                                    body,
                                    subject,
                                    agents,
                                    target,
                                    record {
                                      has_body = has_body;
                                      has_subject = has_subject;
                                      fits = (leb_iff _ _).0 small;
                                      sees_agents = sees_agents;
                                      resolves = resolves;
                                      not_self = other_agent _ _ other;
                                      in_rate = in_rate;
                                    },
                                    subst
                                        (λ x.
                                          send_chat v json cfg now (address_text sender) target body
                                            subject (truthy (arg (codes "important") args)) x
                                          ≡ (ok r, w'))
                                        (sym e) h7,
                                  )

  sent_chat-to :
      (w : World v) (body : Text) (subject : Option Text) (target : Row Meta) (r : ChatReply)
      (w' : World v)
      → sent_chat w body subject target ≡ (ok r, w')
      → target.addr ≡ r.to
  unfolding send_chat
  sent_chat-to w body subject target r w' h =
      ap (λ x. x.to) (ended_alike {E = Failure Meta} _ r _ w' h).0

  -- An accepted chat goes to an agent that the caller may see, that its reference matches, and that
  -- is not the sender.
  pub op_chat-visible :
      (w : World v) (r : ChatReply) (w' : World v)
      → op_chat v json cfg now ident sender args w ≡ (ok r, w')
      → (target : Row Meta) × (target.addr ≡ r.to)
        × (visible ident.user_id ident.groups target.user target.groups ≡ true)
        × (matches (reference (arg (codes "to") args)) target.addr ≡ true)
        × (target.addr ≢ address_text sender)
  op_chat-visible w r w' h =
      let (body, subject, agents, target, may, sent) = op_chat_sound w r w' h in
      let (m, matched) =
        resolve_reference-In (reference (arg (codes "to") args)) agents target may.resolves in
      (
        target,
        sent_chat-to w body subject target r w' sent,
        visible_agents-In v json ident w agents target may.sees_agents m,
        matched,
        may.not_self,
      )
