-- ===== src/Store/Agents/Listing.antt =====
-- An agent that was registered is in the directory.
use mathlib.Core.Path.{subst}
use muster_chat.Base.{
  ==_iff, ℕ, ◌<◌, ◌≡◌, ◌≢◌, refl, sym, ap, ◌∙◌, Bool, List, [], ◌∷◌, Option, none, some, ok,
  >>=-eq-ok, ok-injective, pos, Text, Fields, codes, lookup, decimal, int_of_text-decimal, ◌==◌,
  contains, In, here, there, if◌then◌else◌, Bool-cases, inl, inr, arith,
}
use muster_chat.Valkey.{Valkey, Json, Laws, or_else}
use muster_chat.Identity.{Address, address_text}
use muster_chat.Identity.Acl.{contains-In}
use muster_chat.Store.Keys.{Key, key_text, key_text-injective, agents_key, agent_key, presence_key}
use muster_chat.Store.Agents.{
  Row, online, offline, agent_fields, register_agent, row_of, row_at, rows, consed, list_agents,
  sorted, insert_sorted, text_leb,
}
use muster_chat.Store.Agents.Reading.{item-some, item_or-some, int_item-some}

insert_sorted-In : (t u : Text) (us : List Text) → In t us → In t (insert_sorted u us)
unfolding insert_sorted
insert_sorted-In t u [] m = elim m [ ]
insert_sorted-In t u (x ∷ us) (here e) = elim (Bool-cases (text_leb u x)) [
  | inl q ↦ rw q (there (here e))
  | inr q ↦ rw q (here e)
]
insert_sorted-In t u (x ∷ us) (there m) = elim (Bool-cases (text_leb u x)) [
  | inl q ↦ rw q (there (there m))
  | inr q ↦ rw q (there (insert_sorted-In t u us m))
]

inserted : (t : Text) (us : List Text) → In t (insert_sorted t us)
unfolding insert_sorted
inserted t [] = here refl
inserted t (x ∷ us) = elim (Bool-cases (text_leb t x)) [
  | inl q ↦ rw q (here refl)
  | inr q ↦ rw q (there (inserted t us))
]

sorted-In : (t : Text) (ts : List Text) → In t ts → In t (sorted ts)
unfolding sorted
sorted-In t [] m = elim m [ ]
sorted-In t (x ∷ ts) (here e) =
    subst (λ u. In t (insert_sorted u (sorted ts))) (sym e) (inserted t (sorted ts))
sorted-In t (x ∷ ts) (there m) = insert_sorted-In t x (sorted ts) (sorted-In t ts m)

not_nil : (k t : Text) (fs : Fields) → lookup k fs ≡ some t → fs ≢ []
unfolding lookup
not_nil k t [] h = absurd (ground arith)
not_nil k t (f ∷ fs) h = λ e. ground arith

module _ (v : Valkey) (laws : Laws v) (json : Json) where
  open v use {Db, cell, smembers, hgetall, exists, sadd, hset}
  open json use {Meta, dump_groups, dump_meta, load-dump_groups, load-dump_meta}
  open laws use {frame_hset, frame_expire, hgetall-hset, hgetall-expire, smembers-sadd}

  -- what the loop answers for an address is among the rows
  rows-In :
      (a : Text) (r : Row Meta) (as' : List Text) (db : Db) (rs : List (Row Meta))
      → row_at v json a (hgetall (cell db (agent_key a))) (exists (cell db (presence_key a)))
        ≡ ok (some r)
      → In a as'
      → rows v json db as' ≡ ok rs
      → In r rs
  unfolding rows
  rows-In a r [] db rs own m h = elim m [ ]
  rows-In a r (b ∷ bs) db rs own (here e) h =
      let (o, q, h1) =
        >>=-eq-ok
          (row_at v json b (hgetall (cell db (agent_key b))) (exists (cell db (presence_key b)))) _
          h in
      let (rest, _, h2) = >>=-eq-ok (rows v json db bs) _ h1 in
      let same : ok o ≡ ok (some r) =
        sym q
        ∙ ap
            (λ c.
              row_at v json c (hgetall (cell db (agent_key c))) (exists (cell db (presence_key c))))
            e
        ∙ own in
      subst (In r) (ok-injective h2)
        (subst (λ x. In r (consed v json x rest)) (sym (ok-injective same)) (here refl))
  rows-In a r (b ∷ bs) db rs own (there m) h =
      let (o, q, h1) =
        >>=-eq-ok
          (row_at v json b (hgetall (cell db (agent_key b))) (exists (cell db (presence_key b)))) _
          h in
      let (rest, q', h2) = >>=-eq-ok (rows v json db bs) _ h1 in
      subst (In r) (ok-injective h2) (behind o rest (rows-In a r bs db rest own m q'))
    where
      behind :
          (o : Option (Row Meta)) (rest : List (Row Meta)) → In r rest → In r (consed v json o rest)
      behind none rest k = k
      behind (some x) rest k = there k

  module _ (now : ℕ) (addr : Address) (groups : List Text) (meta : Meta) (retention : ℕ) where
    abbrev registered : Db → Db
    registered = register_agent v json now addr groups meta retention

    -- The row of the agent.
    abbrev pub row_now : Db → Row Meta
    row_now db = record {
      addr = address_text addr;
      user = addr.user;
      host = addr.host;
      runtime = addr.runtime;
      project = addr.project;
      session = addr.session;
      groups = groups;
      meta = meta;
      last_connect = pos now;
      status = if exists (cell db (presence_key (address_text addr))) then online else offline;
    }

    field :
        (k t : Text) (db : Db)
        → 0 < retention
        → lookup k (agent_fields v json addr groups meta now) ≡ some t
        → lookup k (hgetall (cell (registered db) (agent_key (address_text addr)))) ≡ some t
    unfolding register_agent
    field k t db h e =
        ap (lookup k) (hgetall-expire (agent_key (address_text addr)) retention _ h)
        ∙ hgetall-hset (agent_key (address_text addr)) k (agent_fields v json addr groups meta now)
            _
        ∙ ap
            (λ o. or_else o (
              lookup k (
                hgetall
                  (cell (sadd agents_key (address_text addr) db) (agent_key (address_text addr))))))
            e

    -- The row that is read from the fields of the agent.
    row_read :
        (fs : Fields) (is_online : Bool)
        → ((k t : Text)
            → lookup k (agent_fields v json addr groups meta now) ≡ some t
            → lookup k fs ≡ some t)
        → row_of v json (address_text addr) fs is_online
          ≡ ok (record {
            addr = address_text addr;
            user = addr.user;
            host = addr.host;
            runtime = addr.runtime;
            project = addr.project;
            session = addr.session;
            groups = groups;
            meta = meta;
            last_connect = pos now;
            status = if is_online then online else offline;
          })
    unfolding row_of agent_fields lookup ◌==◌
    row_read fs is_online get = rw (
      item-some (codes "user") addr.user fs (get (codes "user") addr.user refl),
      item-some (codes "host") addr.host fs (get (codes "host") addr.host refl),
      item-some (codes "runtime") addr.runtime fs (get (codes "runtime") addr.runtime refl),
      item-some (codes "project") addr.project fs (get (codes "project") addr.project refl),
      item-some (codes "session") addr.session fs (get (codes "session") addr.session refl),
      int_item-some (codes "last_connect") [] (decimal now) (pos now) fs
          (get (codes "last_connect") (decimal now) refl) (int_of_text-decimal now),
      item_or-some (codes "groups") (codes "[]") (dump_groups groups) fs
          (get (codes "groups") (dump_groups groups) refl),
      item_or-some (codes "meta") (codes "{}") (dump_meta meta) fs
          (get (codes "meta") (dump_meta meta) refl),
      load-dump_groups groups,
      load-dump_meta meta,
    )

    row_at_present :
        (fs : Fields) (is_online : Bool) (r : Row Meta)
        → fs ≢ []
        → row_of v json (address_text addr) fs is_online ≡ ok r
        → row_at v json (address_text addr) fs is_online ≡ ok (some r)
    unfolding row_at
    row_at_present [] is_online r h e = absurd (h refl)
    row_at_present (f ∷ fs) is_online r h e = rw (row_at, e)

    own_row :
        (db : Db)
        → 0 < retention
        → row_at v json
            (address_text addr)
            (hgetall (cell (registered db) (agent_key (address_text addr))))
            (exists (cell (registered db) (presence_key (address_text addr))))
          ≡ ok (some (row_now (registered db)))
    own_row db h =
        let fs = hgetall (cell (registered db) (agent_key (address_text addr))) in
        row_at_present fs _ _
          (not_nil (codes "user") addr.user fs
            (field (codes "user") addr.user db h (unfold agent_fields lookup ◌==◌ in refl)))
          (row_read fs _ (λ k t e. field k t db h e))

    agent-ne-agents : (a : Text) → agent_key a ≢ agents_key
    agent-ne-agents a e =
        let q : Key.agent a ≡ Key.agents =
          key_text-injective (Key.agent a) Key.agents (unfold key_text in e) in
        ground arith

    registered-In : (db : Db) → In (address_text addr) (smembers (cell (registered db) agents_key))
    unfolding register_agent
    registered-In db =
        let a = address_text addr in
        contains-In _ (
          ap (λ c. contains (smembers c) a)
            (frame_expire retention (agent_key a) agents_key _ (agent-ne-agents a)
              ∙ frame_hset _ (agent_key a) agents_key _ (agent-ne-agents a))
          ∙ smembers-sadd agents_key a a db
          ∙ ground (arith, ==_iff a a))

    -- An agent that registers, with a positive retention, is in the directory: where the directory
    -- can be read, it holds the row with the segments, the groups and the client data of the agent,
    -- the time, and whether it has a presence.
    pub list_agents-register_agent :
        (db : Db) (rs : List (Row Meta))
        → 0 < retention
        → list_agents v json (registered db) ≡ ok rs
        → In (row_now (registered db)) rs
    unfolding list_agents
    list_agents-register_agent db rs h e =
        rows-In (address_text addr) (row_now (registered db)) _ (registered db) rs (own_row db h)
          (sorted-In (address_text addr) _ (registered-In db)) e
