-- ===== src/Ops/Announce/Recipients.antt =====
-- Who is told of an announcement, and that nothing is stored.
use mathlib.Core.Path.{subst}
use muster_chat.Base.{
  ℕ, ◌≡◌, sym, ap, ◌∙◌, Bool, true, false, List, [], ◌∷◌, ◌++◌, append_assoc, append-nil, Option,
  Result, ok, err, Text, codes, select, map, length, arith, leb, if◌then◌else◌,
}
use muster_chat.Base.Handlers.{after_reads, after_step, after_require, ended_alike}
use muster_chat.Valkey.{Valkey, Json}
use muster_chat.Identity.{Address, address_text}
use muster_chat.Auth.{Identity}
use muster_chat.Config.{Config}
use muster_chat.Store.Keys.{announce_kind, notify_channel}
use muster_chat.Store.Envelope.{or_text}
use muster_chat.Store.Agents.{Row}
use muster_chat.Store.Rate.{rate_check}
use muster_chat.Store.Deliver.{World, Published, publish_deliver, Event}
use muster_chat.Ops.Types.{body_arg, Args, arg, truthy, Failure, text_arg, subject_arg}
use muster_chat.Ops.Checks.{visible_agents, size, check_size, check_rate}
use muster_chat.Ops.Announce.{Scope, scope_of, is_eligible, publish_all, broadcast, op_announce}

abbrev pub told : {Meta : Type 0} → Event → Row Meta → Published
told event a = record { channel = notify_channel a.addr; event = event }

module _ (v : Valkey) (json : Json) where
  open json use {Meta}

  -- Each of the agents is told, in order.
  publish_all_lem :
      (event : Event) (agents : List (Row Meta)) (w : World v)
      → publish_all v json event agents w ≡ record w { sent = w.sent ++ map (told event) agents }
  unfolding publish_all publish_deliver
  publish_all_lem event [] w = ap (λ l. record w { sent = l }) (sym (append-nil w.sent))
  publish_all_lem event (a ∷ agents) w =
      publish_all_lem event agents (publish_deliver a.addr event w)
      ∙ ap (λ l. record w { sent = l })
          (append_assoc w.sent (told event a ∷ []) (map (told event) agents))

module _ (v : Valkey) (json : Json) (cfg : Config) (ident : Identity) (sender : Address)
    (args : Args) where
  open json use {Meta}

  -- the rate check of an announcement
  abbrev announce_checked : World v → (Bool × ℕ) × v.Db
  announce_checked w =
      rate_check v announce_kind (address_text sender) cfg.announce_rate cfg.rate_window w.db

  -- What an accepted announcement from `w` with `n` recipients has done.
  abbrev pub Announced : World v → ℕ → World v → Type 0
  Announced w n w' =
      (body : Text) × (subject : Option Text) × (scope : Scope) × (agents : List (Row Meta))
      × (scope_text : Text) × (body_arg {Meta = Meta} (arg (codes "body") args) ≡ ok body)
      × (subject_arg {Meta = Meta} (arg (codes "subject") args) ≡ ok subject)
      × (text_arg {Meta = Meta} (arg (codes "scope") args) ≡ ok scope_text)
      × (scope_of {Meta = Meta} ident scope_text ≡ ok scope)
      × (visible_agents v json ident (record w { db = (announce_checked w).1 }) ≡ ok agents)
      × (n
          ≡ length (
              select (is_eligible ident scope (arg (codes "project") args) (address_text sender))
                agents))
      × (w'.db ≡ (announce_checked w).1)
      × (w'.sent
          ≡ w.sent
            ++ map (told (Event.announce (address_text sender) (or_text subject []) body)) (
                select (is_eligible ident scope (arg (codes "project") args) (address_text sender))
                  agents))

  rate_passed :
      (e : Failure Meta) (b : Bool) (t u : World v)
      → ◌≡◌ {A = Result (Failure Meta) (Unit {0}) × World v}
          (if b then ok tt else err e, t)
          (ok tt, u)
      → t ≡ u
  rate_passed e true t u h = ap (λ r. r.1) h
  rate_passed e false t u h = absurd (ground arith)

  check_rate-ok :
      (w : World v) {t : World v}
      → check_rate v json announce_kind (address_text sender) cfg.announce_rate cfg.rate_window w
        ≡ (ok tt, t)
      → record w { db = (announce_checked w).1 } ≡ t
  unfolding check_rate
  check_rate-ok w {t} h =
      rate_passed _ (announce_checked w).0.0 (record w { db = (announce_checked w).1 }) t h

  -- An accepted announcement is published once to each visible agent that is in its scope, of its
  -- project, online and not the sender, in the order of the directory; its answer is their number;
  -- and Valkey has counted it and stored nothing else.
  pub op_announce_sound :
      (w : World v) (n : ℕ) (w' : World v)
      → op_announce v json cfg ident sender args w ≡ (ok n, w')
      → Announced w n w'
  unfolding op_announce check_size
  op_announce_sound w n w' h =
      after_require {C = Announced w n w'} (truthy (arg (codes "project") args)) _ _ w h λ _ h1.
        after_reads {C = Announced w n w'} (body_arg {Meta = Meta} (arg (codes "body") args)) _ w h1
          λ body has_body h2.
            after_reads {C = Announced w n w'}
              (subject_arg {Meta = Meta} (arg (codes "subject") args)) _ w h2
              λ subject has_subject h3.
                after_require {C = Announced w n w'} (leb (size body subject) cfg.body_max) _ _ w h3
                  λ _ h4.
                    after_reads {C = Announced w n w'}
                      (text_arg {Meta = Meta} (arg (codes "scope") args)) _ w h4
                      λ scope_text has_scope h5.
                        after_reads {C = Announced w n w'} (scope_of {Meta = Meta} ident scope_text)
                          _ w h5
                          λ scope in_own h6.
                            after_step {C = Announced w n w'}
                              (check_rate v json announce_kind (address_text sender)
                                cfg.announce_rate cfg.rate_window)
                              _ w h6
                              λ u t passed h7.
                                after_reads {C = Announced w n w'} (visible_agents v json ident t) _
                                  t h7
                                  λ agents sees h8.
                                    let w1 : World v = record w { db = (announce_checked w).1 } in
                                    let e : w1 ≡ t = check_rate-ok w passed in
                                    let eligible =
                                      select
                                        (is_eligible ident scope (arg (codes "project") args)
                                          (address_text sender))
                                        agents in
                                    let event =
                                      Event.announce (address_text sender) (or_text subject [])
                                        body in
                                    let (en, ew) =
                                      ended_alike {E = Failure Meta} (length eligible) n
                                        (publish_all v json event eligible t) w'
                                        (unfold broadcast in h8) in
                                    let last : record t {
                                      sent = t.sent ++ map (told event) eligible;
                                    }
                                        ≡ w' =
                                      sym (publish_all_lem v json event eligible t) ∙ ew in
                                    (
                                      body,
                                      subject,
                                      scope,
                                      agents,
                                      scope_text,
                                      has_body,
                                      has_subject,
                                      has_scope,
                                      in_own,
                                      subst (λ x. visible_agents v json ident x ≡ ok agents) (sym e)
                                          sees,
                                      sym en,
                                      ap (λ x. x.db) (sym last) ∙ ap (λ x. x.db) (sym e),
                                      ap (λ x. x.sent) (sym last)
                                          ∙ ap (λ x. x.sent ++ map (told event) eligible) (sym e),
                                    )
