-- ===== src/Reaper/Rounds.antt =====
-- The whole loop: the directory afterwards, the agents that it removes and those that it keeps.
use muster_chat.Base.{
  ◌≡◌, refl, sym, ap, ◌∙◌, Bool, true, false, not, ◌&&◌, ◌||◌, List, [], ◌∷◌, Text, ◌==◌, ==_sound,
  ne_of_==, contains, Bool-cases, inl, inr, arith,
}
use muster_chat.Valkey.{Valkey, Laws}
use muster_chat.Store.Keys.{Key, key_text, agents_key}
use muster_chat.Reaper.{forget, reap_agent, reap, reap_once}
use muster_chat.Reaper.Directory.{
  Part, part, at, listed, round, forget-agents, forget_frame, forget-part, reap_agent-hash,
  part-injective, agents-ne-part,
}

module _ (v : Valkey) (laws : Laws v) where
  open v use {Db, Cell, cell, smembers, exists}

  -- The agent has its hash.
  abbrev pub alive : Text → Db → Bool
  alive a db = exists (at v laws (Key.agent a) db)

  reap_agent-alive : (a u : Text) (db : Db) → alive u (reap_agent v a db).1 ≡ alive u db
  reap_agent-alive a u db = ap exists (reap_agent-hash v laws a u db)

  same_alive : (a u : Text) (db : Db) → (a == u) ≡ true → alive u db ≡ alive a db
  same_alive a u db h = ap (λ b. alive b db) (sym (==_sound a u h))

  reap_agent-listed :
      (a u : Text) (db : Db)
      → listed v laws u (reap_agent v a db).1 ≡ (listed v laws u db && (alive u db || not (a == u)))
  reap_agent-listed a u db = elim (round v laws a db) [
    | inl (q, e) ↦ rw e (ground (arith, same_alive a u db))
    | inr (q, e) ↦ rw e (ground (arith, same_alive a u db, forget-agents v laws a u db))
  ]

  reap-listed :
      (as' : List Text) (u : Text) (db : Db)
      → listed v laws u (reap v as' db).1
        ≡ (listed v laws u db && (alive u db || not (contains as' u)))
  unfolding reap
  reap-listed [] u db = ground arith
  reap-listed (a ∷ as') u db = ground (
    arith,
    reap-listed as' u (reap_agent v a db).1,
    reap_agent-listed a u db,
    reap_agent-alive a u db,
  )

  -- After a round of the reaper the directory is made of its agents that have a hash.
  reap_once_lem :
      (u : Text) (db : Db) → listed v laws u (reap_once v db).1 ≡ (listed v laws u db && alive u db)
  unfolding reap_once key_text
  reap_once_lem u db = ground (arith, reap-listed (smembers (cell db agents_key)) u db)

  reap_agent-keeps :
      (a u : Text) (p : Part) (db : Db)
      → alive u db ≡ true
      → at v laws (part p u) (reap_agent v a db).1 ≡ at v laws (part p u) db
  reap_agent-keeps a u p db h = elim (round v laws a db) [
    | inl (q, e) ↦ rw e
    | inr (q, e) ↦ rw e (
        forget_frame v laws a (part p u) db (agents-ne-part p u)
          (λ r s. ground (arith, ap (λ b. alive b db) (part-injective r p a u s))))
  ]

  reap-keeps :
      (as' : List Text) (u : Text) (p : Part) (db : Db)
      → alive u db ≡ true
      → at v laws (part p u) (reap v as' db).1 ≡ at v laws (part p u) db
  unfolding reap
  reap-keeps [] u p db h = refl
  reap-keeps (a ∷ as') u p db h =
      reap-keeps as' u p (reap_agent v a db).1 (reap_agent-alive a u db ∙ h)
      ∙ reap_agent-keeps a u p db h

  -- An agent that has a hash keeps its inbox, its cursor and its presence.
  reap_once-keeps :
      (u : Text) (p : Part) (db : Db)
      → alive u db ≡ true
      → at v laws (part p u) (reap_once v db).1 ≡ at v laws (part p u) db
  unfolding reap_once
  reap_once-keeps u p db h = reap-keeps (smembers (cell db agents_key)) u p db h

  abbrev Gone : Part → Text → Db → Type 0
  Gone p u db = exists (at v laws (part p u) db) ≡ false

  forgotten : (a u : Text) (p : Part) (db : Db) → (a == u) ≡ true → Gone p u (forget v a db)
  forgotten a u p db s =
      ap (λ b. exists (at v laws (part p b) (forget v a db))) (sym (==_sound a u s))
      ∙ forget-part v laws a p db

  reap_agent-Gone : (a u : Text) (p : Part) (db : Db) → Gone p u db → Gone p u (reap_agent v a db).1
  reap_agent-Gone a u p db h = elim (round v laws a db) [
    | inl (q, e) ↦ rw e h
    | inr (q, e) ↦ rw e (elim (Bool-cases (a == u)) [
      | inl s ↦ forgotten a u p db s
      | inr s ↦
          ap exists (
            forget_frame v laws a (part p u) db (agents-ne-part p u)
              (λ r t. ne_of_== a u s (part-injective r p a u t)))
          ∙ h
    ])
  ]

  reap-Gone :
      (as' : List Text) (u : Text) (p : Part) (db : Db) → Gone p u db → Gone p u (reap v as' db).1
  unfolding reap
  reap-Gone [] u p db h = h
  reap-Gone (a ∷ as') u p db h =
      reap-Gone as' u p (reap_agent v a db).1 (reap_agent-Gone a u p db h)

  removed_now :
      (a u : Text) (p : Part) (db : Db)
      → (a == u) ≡ true
      → alive u db ≡ false
      → Gone p u (reap_agent v a db).1
  removed_now a u p db s h = elim (round v laws a db) [
    | inl (q, e) ↦ absurd (ground (arith, same_alive a u db))
    | inr (q, e) ↦ rw e (forgotten a u p db s)
  ]

  reap-removes :
      (as' : List Text) (u : Text) (p : Part) (db : Db)
      → contains as' u ≡ true
      → alive u db ≡ false
      → Gone p u (reap v as' db).1
  unfolding reap
  reap-removes [] u p db m h = absurd (ground arith)
  reap-removes (a ∷ as') u p db m h = elim (Bool-cases (a == u)) [
    | inl s ↦ reap-Gone as' u p (reap_agent v a db).1 (removed_now a u p db s h)
    | inr s ↦ reap-removes as' u p (reap_agent v a db).1 (rw s at m) (reap_agent-alive a u db ∙ h)
  ]

  -- An agent of the directory with no hash is out of the directory after a round of the reaper, and
  -- has no inbox, no cursor and no presence.
  pub reap_once-removes :
      (u : Text) (p : Part) (db : Db)
      → listed v laws u db ≡ true
      → alive u db ≡ false
      → (listed v laws u (reap_once v db).1 ≡ false)
        × (exists (at v laws (part p u) (reap_once v db).1) ≡ false)
  unfolding reap_once key_text
  reap_once-removes u p db m h =
      (reap_once_lem u db ∙ ground arith, reap-removes (smembers (cell db agents_key)) u p db m h)
