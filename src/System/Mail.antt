-- ===== src/System/Mail.antt =====
-- The mail of an agent over the life of the server: an abstract queue of identifiers, at whose back
-- answered chats put theirs and at whose front identifiers leave.
use mathlib.Core.Path.{subst}
use muster_chat.Base.{
  ◌<◌, ◌≡◌, refl, sym, ap, List, [], ◌∷◌, ◌++◌, map, append-nil, append_assoc, Option, none, some,
  Text, ◌==◌, ==_sound, ne_of_==, Bool-cases, inl, inr, arith,
}
use muster_chat.Base.Ends.{IsEnd, IsEnd-same, IsEnd-nil, IsEnd-trans, IsEnd-append}
use muster_chat.Valkey.{Valkey, Laws, Json, Entry, past}
use muster_chat.Identity.{address_text}
use muster_chat.Auth.{Doc, Outcome}
use muster_chat.Config.{Config}
use muster_chat.Store.Keys.{inbox_key, cursor_key, Key, key_text}
use muster_chat.Store.Inbox.Fetch.{unread, unread-frame}
use muster_chat.Ops.Mail.{ids}
use muster_chat.Reaper.{forget, reap_agent, reap, reap_once}
use muster_chat.Reaper.Directory.{
  cursor_of, inbox_of, round, forget_frame, forget-part, part-injective,
}
use muster_chat.App.{Server, handle}
use muster_chat.App.Mail.{mailed, handle-mailed}
use muster_chat.System.{Step, serves, streams, reaps, lapses, Reach, here, next}
use muster_chat.System.Cursors.{IsSound, Reach-IsSound}
use muster_chat.Stream.Foreign.{inbox-IsForeign, cursor-IsForeign, run_move-cell}

module _ (v : Valkey) (laws : Laws v) (json : Json) where
  open v use {Db, cell, entries}
  open laws use {absent}

  kept_ids :
      (a : Text) (db db' : Db)
      → unread v laws a db' ≡ unread v laws a db
      → IsEnd (ids v laws json a db') (ids v laws json a db)
  kept_ids a db db' e = IsEnd-same (ap (map (λ m. m.id)) e)

  nothing_past : (from : Option Text) (es : List Entry) → es ≡ [] → past v from es ≡ []
  nothing_past none es e = e
  nothing_past (some i) es e = rw e refl

  forgotten_ids : (b : Text) (db : Db) → ids v laws json b (forget v b db) ≡ []
  unfolding key_text
  forgotten_ids b db =
      let gone : entries (cell (forget v b db) (inbox_key b)) ≡ [] =
        (absent (cell (forget v b db) (inbox_key b)) (forget-part v laws b inbox_of db)).1 in
      ap (map (λ e. e.id)) (nothing_past _ _ gone)

  forget-ids :
      (a b : Text) (db : Db) → IsEnd (ids v laws json b (forget v a db)) (ids v laws json b db)
  unfolding key_text
  forget-ids a b db = elim (Bool-cases (a == b)) [
    | inl q ↦
        subst (λ c. IsEnd (ids v laws json b (forget v c db)) (ids v laws json b db))
          (sym (==_sound a b q)) (rw (forgotten_ids b db) (IsEnd-nil (ids v laws json b db)))
    | inr q ↦ kept_ids b db _ (
        unread-frame v laws b db _
          (forget_frame v laws a (Key.inbox b) db (λ e. ground arith)
            (λ p e. ne_of_== a b q (part-injective p inbox_of a b e)))
          (forget_frame v laws a (Key.cursor b) db (λ e. ground arith)
            (λ p e. ne_of_== a b q (part-injective p cursor_of a b e))))
  ]

  reap_agent-ids :
      (a b : Text) (db : Db)
      → IsEnd (ids v laws json b (reap_agent v a db).1) (ids v laws json b db)
  reap_agent-ids a b db = elim (round v laws a db) [
    | inl (_, e) ↦ rw e (IsEnd-same refl)
    | inr (_, e) ↦ rw e (forget-ids a b db)
  ]

  reap-ids :
      (as' : List Text) (b : Text) (db : Db)
      → IsEnd (ids v laws json b (reap v as' db).1) (ids v laws json b db)
  unfolding reap
  reap-ids [] b db = IsEnd-same refl
  reap-ids (a ∷ as') b db =
      IsEnd-trans (reap-ids as' b (reap_agent v a db).1) (reap_agent-ids a b db)

module _ (v : Valkey) (json : Json) (digest : Text → Text) (repr : Doc → Text)
    (ask : Text → Text → Text → Outcome) (cfg : Config) where
  -- What a step brings to an agent: the message that the response to its request names.
  abbrev brings : {s u : Server v} → Text → Step v json digest repr ask cfg s u → List Text
  brings {s} a (serves t req) = mailed a (handle v json digest repr ask cfg t req s).0
  brings a (streams addr m) = []
  brings a reaps = []
  brings a (lapses db i c) = []

  -- The identifiers that the requests of a run brought to an agent, in the order of the requests.
  abbrev pub arrivals : {s u : Server v} → Text → Reach v json digest repr ask cfg s u → List Text
  arrivals a here = []
  arrivals a (next r st) = arrivals a r ++ brings a st

module _ (v : Valkey) (laws : Laws v) (json : Json) (digest : Text → Text) (repr : Doc → Text)
    (ask : Text → Text → Text → Outcome) (cfg : Config) where
  module _ (capped : 0 < cfg.inbox_maxlen) where
    Step-ids :
        {s u : Server v} (a : Text) (st : Step v json digest repr ask cfg s u)
        → IsSound v laws json digest repr ask cfg s
        → IsEnd
            (ids v laws json a u.world.db)
            (ids v laws json a s.world.db ++ brings v json digest repr ask cfg a st)
    unfolding reap_once
    Step-ids {s} a (serves t req) h =
        handle-mailed v laws json digest repr ask cfg capped t req a s h
    Step-ids {s} a (streams addr m) h = rw (append-nil (ids v laws json a s.world.db)) (
        kept_ids v laws json a s.world.db _ (
          unread-frame v laws a s.world.db _
            (run_move-cell v laws json cfg addr (inbox_key a)
              (inbox-IsForeign (address_text addr) a) m s.world.db)
            (run_move-cell v laws json cfg addr (cursor_key a)
              (cursor-IsForeign (address_text addr) a) m s.world.db)))
    Step-ids {s} a reaps h =
        rw (append-nil (ids v laws json a s.world.db)) (reap-ids v laws json _ a s.world.db)
    Step-ids {s} a (lapses db i c) h =
        rw (append-nil (ids v laws json a s.world.db))
          (kept_ids v laws json a s.world.db db (unread-frame v laws a s.world.db db (i a) (c a)))

  -- Whatever requests, streams, rounds of the reaper and expiries of keys come, in whatever order:
  -- what an agent has to fetch is some end of what it had to fetch at first, with the messages
  -- behind that answered chats brought to it, in the order of the answers; the inbox cap is
  -- positive and every cursor was at the start or at an issued entry at first.
  pub Reach-ids :
      {s u : Server v} (a : Text)
      → 0 < cfg.inbox_maxlen
      → IsSound v laws json digest repr ask cfg s
      → (r : Reach v json digest repr ask cfg s u)
      → IsEnd
          (ids v laws json a u.world.db)
          (ids v laws json a s.world.db ++ arrivals v json digest repr ask cfg a r)
  Reach-ids {s} a capped h here = rw (append-nil (ids v laws json a s.world.db)) (IsEnd-same refl)
  Reach-ids {s} a capped h (next r st) =
      IsEnd-trans
        (IsEnd-trans (Step-ids capped a st (Reach-IsSound v laws json digest repr ask cfg h r))
          (IsEnd-append (brings v json digest repr ask cfg a st) (Reach-ids a capped h r)))
        (IsEnd-same (
          append_assoc (ids v laws json a s.world.db) (arrivals v json digest repr ask cfg a r)
            (brings v json digest repr ask cfg a st)))
