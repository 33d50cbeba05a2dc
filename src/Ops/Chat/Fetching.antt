-- ===== src/Ops/Chat/Fetching.antt =====
-- What a fetch answers with, and that a chat is fetched as it was sent.
use mathlib.Core.Path.{subst}
use muster_chat.Base.{
  ℕ, zero, suc, ◌+◌, ◌≤◌, ◌<◌, ◌≡◌, ◌≢◌, refl, sym, ap, ◌∙◌, List, [], ◌∷◌, ◌++◌, Option, Result,
  ok, err, ℤ, pos, negsuc, Text, codes, map, take, drop, ok-injective, arith,
}
use muster_chat.Base.Handlers.{after_reads}
use muster_chat.Valkey.{Valkey, Json, Laws, Entry}
use muster_chat.Identity.{Address, address_text}
use muster_chat.Auth.{Identity}
use muster_chat.Config.{Config}
use muster_chat.Store.Agents.{Crash}
use muster_chat.Store.Inbox.{fetch_unread, live_entries}
use muster_chat.Store.Inbox.Fetch.{unread, CursorIsIssued, fetch_unread_lem, fetch_unread-others}
use muster_chat.Store.Inbox.Expiry.{expiry, live_entries-single}
use muster_chat.Store.Deliver.{World}
use muster_chat.Ops.Types.{body_arg, Args, arg, truthy, subject_arg, int_arg, count_arg}
use muster_chat.Ops.Chat.{
  ChatReply, FetchedMessage, fetched, fetched_all, read_inbox, op_chat, op_fetch,
}
use muster_chat.Ops.Chat.Delivery.{received, op_chat-Delivers}

module _ {Meta : Type 0} where
  -- The count of an accepted fetch is between 1 and 100.
  count_arg-bounds : (z : ℤ) (n : ℕ) → count_arg {Meta = Meta} z ≡ ok n → (1 ≤ n) × (n ≤ 100)
  unfolding count_arg
  count_arg-bounds (pos zero) n h = absurd (ground arith)
  count_arg-bounds (pos (suc m)) n h = ground (arith, ok-injective h)
  count_arg-bounds (negsuc m) n h = absurd (ground arith)

module _ (v : Valkey) (laws : Laws v) (json : Json) (now : ℕ) (sender : Address) (args : Args) where
  open json use {Meta}

  -- What a fetch from `w` that answers with `ms` in `w'` has done.
  abbrev Fetches : World v → List FetchedMessage → World v → Type 0
  Fetches w ms w' =
      (count : ℕ) × (es : List Entry) × (1 ≤ count)
      × (count ≤ 100)
      × (live_entries now (take count (unread v laws (address_text sender) w.db)) ≡ ok es)
      × (map fetched es ≡ ms)
      × (unread v laws (address_text sender) w'.db
          ≡ drop count (unread v laws (address_text sender) w.db))
      × ((b : Text) → address_text sender ≢ b → unread v laws b w'.db ≡ unread v laws b w.db)
      × (w'.sent ≡ w.sent)

  fetched_all-ok :
      (r : Result Crash (List Entry)) (ms : List FetchedMessage)
      → fetched_all v json r ≡ ok ms
      → (es : List Entry) × (r ≡ ok es) × (map fetched es ≡ ms)
  unfolding fetched_all
  fetched_all-ok (ok es) ms h = (es, refl, ok-injective h)
  fetched_all-ok (err e) ms h = absurd (ground arith)

  read_inbox_lem :
      (count : ℕ) (w : World v) (ms : List FetchedMessage) (w' : World v)
      → 1 ≤ count
      → count ≤ 100
      → read_inbox v json now sender count w ≡ (ok ms, w')
      → Fetches w ms w'
  unfolding read_inbox
  read_inbox_lem count w ms w' lo hi h =
      let a = address_text sender in
      let (es, e, q) = fetched_all-ok (fetch_unread v now a count w.db).0 ms (ap (λ r. r.0) h) in
      let (answer, left) = fetch_unread_lem v laws now a count w.db in
      subst (Fetches w ms) (ap (λ r. r.1) h) (
        count,
        es,
        lo,
        hi,
        sym answer ∙ e,
        q,
        left,
        λ b other. fetch_unread-others v laws now a b count w.db other,
        refl,
      )

  -- An accepted fetch reads between 1 and 100 of the entries that its sender had to fetch, answers
  -- with the live ones in order, leaves the others to be fetched, and changes what nobody else has
  -- to fetch.
  op_fetch_lem :
      (w : World v) (ms : List FetchedMessage) (w' : World v)
      → op_fetch v json now sender args w ≡ (ok ms, w')
      → Fetches w ms w'
  unfolding op_fetch
  op_fetch_lem w ms w' h =
      after_reads {C = Fetches w ms w'} (int_arg {Meta = Meta} (arg (codes "limit") args)) _ w h
        λ z _ h1.
          after_reads {C = Fetches w ms w'} (count_arg {Meta = Meta} z) _ w h1 λ count counted h2.
            let (lo, hi) = count_arg-bounds z count counted in read_inbox_lem count w ms w' lo hi h2

drop-nil : {A : Type 0} (n : ℕ) → drop {A = A} n [] ≡ []
drop-nil zero = refl
drop-nil (suc n) = refl

take-single : {A : Type 0} (n : ℕ) (x : A) → 1 ≤ n → take n (x ∷ []) ≡ x ∷ []
take-single zero x h = absurd (omega arith)
take-single (suc zero) x h = refl
take-single (suc (suc n)) x h = refl

module _ (v : Valkey) (laws : Laws v) (json : Json) where
  open json use {Meta}

  fetch-single :
      (now : ℕ) (sender : Address) (args : Args) (z : ℤ) (count : ℕ) (e : Entry) (until : ℕ)
      (w : World v)
      → int_arg {Meta = Meta} (arg (codes "limit") args) ≡ ok z
      → count_arg {Meta = Meta} z ≡ ok count
      → unread v laws (address_text sender) w.db ≡ e ∷ []
      → expiry e ≡ ok (pos until)
      → now < until
      → (op_fetch v json now sender args w).0 ≡ ok (fetched e ∷ [])
  unfolding op_fetch read_inbox fetched_all
  fetch-single now sender args z count e until w asked counted only expires early =
      let one : take count (unread v laws (address_text sender) w.db) ≡ e ∷ [] =
        ap (take count) only ∙ take-single count e (count_arg-bounds z count counted).0 in
      let answer : (fetch_unread v now (address_text sender) count w.db).0 ≡ ok (e ∷ []) =
        (fetch_unread_lem v laws now (address_text sender) count w.db).0
        ∙ ap (live_entries now) one
        ∙ live_entries-single now e until expires early in
      rw (asked, counted) (ap (fetched_all v json) answer)

  module _ (cfg : Config) (now : ℕ) (ident : Identity) (sender : Address) (args : Args) where
    -- An accepted chat to an agent with nothing to fetch is what this agent fetches, if it fetches
    -- before the message expires: exactly one message, as it was sent; the inbox cap is positive
    -- and every cursor is at the start or at an issued entry.
    pub op_chat-op_fetch :
        (w : World v) (r : ChatReply) (w' : World v) (later : ℕ) (reader : Address)
        (reader_args : Args) (z : ℤ) (count : ℕ)
        → 0 < cfg.inbox_maxlen
        → ((a : Text) → CursorIsIssued v laws a w.db)
        → op_chat v json cfg now ident sender args w ≡ (ok r, w')
        → address_text reader ≡ r.to
        → unread v laws r.to w.db ≡ []
        → later < now + cfg.message_ttl
        → int_arg {Meta = Meta} (arg (codes "limit") reader_args) ≡ ok z
        → count_arg {Meta = Meta} z ≡ ok count
        → (body : Text) × (subject : Option Text) × (body_arg {Meta = Meta}
              (arg (codes "body") args)
            ≡ ok body)
          × (subject_arg {Meta = Meta} (arg (codes "subject") args) ≡ ok subject)
          × ((op_fetch v json later reader reader_args w').0
              ≡ ok (
                  received r.msg_id now
                    (address_text sender)
                    body
                    subject
                    (truthy (arg (codes "important") args))
                  ∷ []))
    op_chat-op_fetch w r w' later reader reader_args z count capped issued run to none_before early
          asked counted =
        let (body, subject, has_body, has_subject, delivered) =
          op_chat-Delivers v laws json cfg now ident sender args w r w' capped issued run in
        let (e, m, q, f, x, _, _) = delivered in
        let only : unread v laws r.to w'.db ≡ e ∷ [] =
          q ∙ ap (λ l. drop m l ++ e ∷ []) none_before ∙ ap (λ l. l ++ e ∷ []) (drop-nil m) in
        (
          body,
          subject,
          has_body,
          has_subject,
          fetch-single later reader reader_args z count e (now + cfg.message_ttl) w' asked counted
                (ap (λ a. unread v laws a w'.db) to ∙ only) x early
              ∙ ap (λ g. ok (g ∷ [])) f,
        )
