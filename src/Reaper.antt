-- ===== src/Reaper.antt =====
-- server/muster_api/reaper.py: what is left of an agent whose hash has expired is removed. The proofs
-- are in the child.
pub mod Directory
pub mod Rounds
use muster_chat.Base.{ℕ, ◌+◌, Bool, true, false, List, [], ◌∷◌, Text, if◌then◌else◌}
use muster_chat.Valkey.{Valkey}
use muster_chat.Store.Keys.{agents_key, agent_key, presence_key, inbox_key, cursor_key}

module _ (v : Valkey) where
  open v use {Db, cell, smembers, exists, del, srem}

  -- the DEL of three keys, and the SREM
  unfoldable pub forget : Text → Db → Db
  forget a db = srem agents_key a (del (presence_key a) (del (cursor_key a) (del (inbox_key a) db)))

  -- one round of the loop, and how many agents it has removed
  unfoldable pub reap_agent : Text → Db → ℕ × Db
  reap_agent a db = if exists (cell db (agent_key a)) then (0, db) else (1, forget a db)

  -- the loop over the addresses
  unfoldable pub reap : List Text → Db → ℕ × Db
  reap [] db = (0, db)
  reap (a ∷ as') db =
      let (n, db') = reap_agent a db in let (m, db'') = reap as' db' in (n + m, db'')

  unfoldable pub reap_once : Db → ℕ × Db
  reap_once db = reap (smembers (cell db agents_key)) db
