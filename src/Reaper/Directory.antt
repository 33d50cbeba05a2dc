-- ===== src/Reaper/Directory.antt =====
-- What a round of the reaper leaves of the directory and of the agents.
use muster_chat.Base.{
  ◌≡◌, ◌≢◌, ◌⊎◌, ap, ◌∙◌, Bool, true, false, not, ◌&&◌, Text, ◌==◌, contains, Bool-cases, inl, inr,
  arith,
}
use muster_chat.Valkey.{Valkey, Laws}
use muster_chat.Store.Keys.{Key, key_text, key_text-injective, agent_key}
use muster_chat.Reaper.{forget, reap_agent}

-- What is kept for an agent beside its hash.
pub data Part : Type 0 where
  inbox_of cursor_of presence_of : Part

abbrev pub part : Part → Text → Key
part inbox_of a = Key.inbox a
part cursor_of a = Key.cursor a
part presence_of a = Key.presence a

pub part-injective : (p q : Part) (a b : Text) → part p a ≡ part q b → a ≡ b
part-injective inbox_of inbox_of a b e = cc
part-injective cursor_of cursor_of a b e = cc
part-injective presence_of presence_of a b e = cc
part-injective _ _ a b e = absurd (ground arith)

pub agents-ne-part : (p : Part) (a : Text) → Key.agents ≢ part p a
agents-ne-part inbox_of a e = ground arith
agents-ne-part cursor_of a e = ground arith
agents-ne-part presence_of a e = ground arith

part-ne-agent : (p : Part) (a b : Text) → part p a ≢ Key.agent b
part-ne-agent inbox_of a b e = ground arith
part-ne-agent cursor_of a b e = ground arith
part-ne-agent presence_of a b e = ground arith

agents-ne-agent : (b : Text) → Key.agents ≢ Key.agent b
agents-ne-agent b e = ground arith

module _ (v : Valkey) (laws : Laws v) where
  open v use {Db, Cell, cell, smembers, exists}
  open laws use {frame_srem, frame_del, exists-del, smembers-srem}

  -- what is kept for a thing
  abbrev pub at : Key → Db → Cell
  at x db = cell db (key_text x)

  -- The address is in the directory.
  abbrev pub listed : Text → Db → Bool
  listed a db = contains (smembers (at Key.agents db)) a

  apart : (x y : Key) → x ≢ y → key_text x ≢ key_text y
  apart x y h e = h (key_text-injective x y e)

  -- removing an agent changes the directory and what is kept for this agent
  pub forget_frame :
      (a : Text) (y : Key) (db : Db)
      → Key.agents ≢ y
      → ((p : Part) → part p a ≢ y)
      → at y (forget v a db) ≡ at y db
  unfolding forget key_text
  forget_frame a y db h k =
      frame_srem a (key_text Key.agents) (key_text y) _ (apart Key.agents y h)
      ∙ frame_del (key_text (Key.presence a)) (key_text y) _
          (apart (Key.presence a) y (k presence_of))
      ∙ frame_del (key_text (Key.cursor a)) (key_text y) _ (apart (Key.cursor a) y (k cursor_of))
      ∙ frame_del (key_text (Key.inbox a)) (key_text y) _ (apart (Key.inbox a) y (k inbox_of))

  -- deleting at one thing after it was deleted at another
  del_keeps_absent :
      (x y : Key) (db : Db)
      → x ≢ y
      → exists (at y db) ≡ false
      → exists (at y (v.del (key_text x) db)) ≡ false
  del_keeps_absent x y db h e = rw (frame_del (key_text x) (key_text y) db (apart x y h)) e

  pub forget-agents :
      (a u : Text) (db : Db) → listed u (forget v a db) ≡ (not (a == u) && listed u db)
  unfolding forget key_text
  forget-agents a u db =
      smembers-srem (key_text Key.agents) a u _
      ∙ ap (λ c. not (a == u) && contains (smembers c) u)
          (frame_del (key_text (Key.presence a)) (key_text Key.agents) _
              (apart (Key.presence a) Key.agents (λ e. ground arith))
            ∙ frame_del (key_text (Key.cursor a)) (key_text Key.agents) _
                (apart (Key.cursor a) Key.agents (λ e. ground arith))
            ∙ frame_del (key_text (Key.inbox a)) (key_text Key.agents) _
                (apart (Key.inbox a) Key.agents (λ e. ground arith)))

  abbrev deleted : Text → Db → Db
  deleted a db =
      v.del (key_text (Key.presence a))
        (v.del (key_text (Key.cursor a)) (v.del (key_text (Key.inbox a)) db))

  pub forget-part : (a : Text) (p : Part) (db : Db) → exists (at (part p a) (forget v a db)) ≡ false
  unfolding forget key_text
  forget-part a p db =
      rw
        (frame_srem a (key_text Key.agents) (key_text (part p a)) (deleted a db)
          (apart Key.agents (part p a) (agents-ne-part p a)))
        (absent_part p)
    where
      absent_part : (q : Part) → exists (at (part q a) (deleted a db)) ≡ false
      absent_part presence_of = exists-del (key_text (Key.presence a)) _
      absent_part cursor_of =
          del_keeps_absent (Key.presence a) (Key.cursor a) _ (λ e. ground arith)
            (exists-del (key_text (Key.cursor a)) _)
      absent_part inbox_of =
          del_keeps_absent (Key.presence a) (Key.inbox a) _ (λ e. ground arith)
            (del_keeps_absent (Key.cursor a) (Key.inbox a) _ (λ e. ground arith)
              (exists-del (key_text (Key.inbox a)) _))

  -- One round of the loop: an agent with a hash is left alone, another is removed.
  abbrev Round : Text → Db → Type 0
  Round a db =
      ((exists (at (Key.agent a) db) ≡ true) × (reap_agent v a db ≡ (0, db)))
      ⊎ ((exists (at (Key.agent a) db) ≡ false) × (reap_agent v a db ≡ (1, forget v a db)))

  pub round : (a : Text) (db : Db) → Round a db
  unfolding reap_agent key_text
  round a db = elim (Bool-cases (exists (cell db (agent_key a)))) [
    | inl q ↦ inl (q, rw q)
    | inr q ↦ inr (q, rw q)
  ]

  pub reap_agent-hash :
      (a u : Text) (db : Db) → at (Key.agent u) (reap_agent v a db).1 ≡ at (Key.agent u) db
  reap_agent-hash a u db = elim (round a db) [
    | inl (_, e) ↦ rw e
    | inr (_, e) ↦
        rw e (forget_frame a (Key.agent u) db (agents-ne-agent u) (λ p. part-ne-agent p a u))
  ]
