-- ===== src/Valkey.antt =====
-- What the server uses of its two outside parts: the Valkey server (through the `redis` client) and
-- the JSON texts that it stores in hashes. Both are parameters: the commands are fields of `Valkey`,
-- and what the documentation of each command says is a field of `Laws`.
pub mod Memory
use muster_chat.Base.{
  ℕ, ◌+◌, ◌≤◌, ◌<◌, ◌≡◌, ◌≢◌, ◌⊎◌, Bool, true, false, not, ◌&&◌, ◌||◌, List, [], ◌∷◌, ◌++◌, Option,
  none, some, Text, Fields, codes, ◌==◌, contains, lookup, length, select, take, drop, All,
  if◌then◌else◌,
}

-- An entry of a stream.
pub record Entry : Type 0 where
  pub id : Text
  pub fields : Fields

-- The reply of TTL: -2, -1, or the seconds that are left.
pub data Ttl : Type 0 where
  missing : Ttl
  persistent : Ttl
  seconds : ℕ → Ttl

-- The commands. A `Cell` is what the server keeps at a key, its expiry included; every reading
-- command is a function of the cell of its key.
pub record Valkey : Type 1 where
  pub Db : Type 0
  pub Cell : Type 0
  pub cell : Db → Text → Cell
  pub smembers : Cell → List Text
  pub hgetall : Cell → Fields
  pub exists : Cell → Bool
  pub get : Cell → Option Text
  pub counter : Cell → ℕ
  pub ttl : Cell → Ttl
  pub entries : Cell → List Entry
  pub issued : Cell → Text → Bool
  pub before : Text → Text → Bool
  pub xrange : Db → Text → Option Text → ℕ → List Entry
  pub sadd : Text → Text → Db → Db
  pub srem : Text → Text → Db → Db
  pub hset : Text → Fields → Db → Db
  pub expire : Text → ℕ → Db → Db
  pub expire_nx : Text → ℕ → Db → Db
  pub del : Text → Db → Db
  pub set_value : Text → Text → Db → Db
  pub incr : Text → Db → Db
  pub xadd : Text → Fields → ℕ → Db → Text × Db

-- The first of two answers that is there.
abbrev pub or_else : Option Text → Option Text → Option Text
or_else none o = o
or_else (some t) o = some t

module _ (v : Valkey) where
  open v use {
    Db, Cell, cell, smembers, hgetall, exists, get, counter, ttl, entries, issued, before, xrange,
    sadd, srem, hset, expire, expire_nx, del, set_value, incr, xadd,
  }

  -- The entries of a stream behind a position, where `none` is the start.
  abbrev pub past : Option Text → List Entry → List Entry
  past none es = es
  past (some i) es = select (λ e. before i e.id) es

  -- Each entry stands before the later ones.
  abbrev pub IsOrdered : List Entry → Type 0
  IsOrdered [] = Unit
  IsOrdered (e ∷ es) = All (λ e'. before e.id e'.id ≡ true) es × IsOrdered es

  -- A command that writes at one key leaves the cells of the other keys.
  abbrev pub Frames : (Text → Db → Db) → Type 0
  Frames write = (k j : Text) (db : Db) → k ≢ j → cell (write k db) j ≡ cell db j

  pub record Laws : Type 0 where
    pub frame_sadd : (t : Text) → Frames (λ k. sadd k t)
    pub frame_srem : (t : Text) → Frames (λ k. srem k t)
    pub frame_hset : (fs : Fields) → Frames (λ k. hset k fs)
    pub frame_expire : (n : ℕ) → Frames (λ k. expire k n)
    pub frame_expire_nx : (n : ℕ) → Frames (λ k. expire_nx k n)
    pub frame_del : Frames del
    pub frame_set : (t : Text) → Frames (λ k. set_value k t)
    pub frame_incr : Frames incr
    pub frame_xadd : (fs : Fields) (n : ℕ) → Frames (λ k db. (xadd k fs n db).1)
    -- SADD, SREM, SMEMBERS
    pub smembers-sadd :
        (k t u : Text) (db : Db)
        → contains (smembers (cell (sadd k t db) k)) u
          ≡ (t == u || contains (smembers (cell db k)) u)
    pub smembers-srem :
        (k t u : Text) (db : Db)
        → contains (smembers (cell (srem k t db) k)) u
          ≡ (not (t == u) && contains (smembers (cell db k)) u)
    -- HSET, HGETALL, EXISTS, DEL: a hash with no field is not there, and nothing is kept at a key
    -- that is not there
    pub hgetall-hset :
        (k f : Text) (fs : Fields) (db : Db)
        → lookup f (hgetall (cell (hset k fs db) k))
          ≡ or_else (lookup f fs) (lookup f (hgetall (cell db k)))
    pub exists_of_hgetall : (c : Cell) → hgetall c ≢ [] → exists c ≡ true
    pub exists-del : (k : Text) (db : Db) → exists (cell (del k db) k) ≡ false
    pub absent :
        (c : Cell)
        → exists c ≡ false
        → (hgetall c ≡ []) × (entries c ≡ []) × (get c ≡ none) × (counter c ≡ 0) × (ttl c ≡ missing)
    -- EXPIRE with a positive time keeps the value
    pub hgetall-expire :
        (k : Text) (n : ℕ) (db : Db)
        → 0 < n
        → hgetall (cell (expire k n db) k) ≡ hgetall (cell db k)
    pub counter-expire :
        (k : Text) (n : ℕ) (db : Db)
        → 0 < n
        → counter (cell (expire k n db) k) ≡ counter (cell db k)
    pub counter-expire_nx :
        (k : Text) (n : ℕ) (db : Db)
        → 0 < n
        → counter (cell (expire_nx k n db) k) ≡ counter (cell db k)
    pub ttl-expire_nx :
        (k : Text) (n : ℕ) (db : Db)
        → ttl (cell (expire_nx k n db) k) ≡ elim (ttl (cell db k)) [
          | missing ↦ missing
          | persistent ↦ seconds n
          | seconds m ↦ seconds m
        ]
    -- SET, GET, INCR
    pub get-set : (k t : Text) (db : Db) → get (cell (set_value k t db) k) ≡ some t
    pub counter-incr : (k : Text) (db : Db) → counter (cell (incr k db) k) ≡ counter (cell db k) + 1
    -- XADD appends behind every identifier that the stream has issued, and may trim at the front as
    -- long as `n` entries are left; XRANGE reads a limited number of entries behind a position
    pub before_irrefl : (i : Text) → before i i ≡ false
    pub before_trans : (i j k : Text) → before i j ≡ true → before j k ≡ true → before i k ≡ true
    pub issued-ne-nil : (c : Cell) (i : Text) → issued c i ≡ true → i ≢ []
    pub entries-IsOrdered : (c : Cell) → IsOrdered (entries c)
    pub issued-entries : (c : Cell) → All (λ e. issued c e.id ≡ true) (entries c)
    pub issued-xadd :
        (k : Text) (fs : Fields) (n : ℕ) (db : Db) (i : Text)
        → issued (cell db k) i ≡ true
        → issued (cell (xadd k fs n db).1 k) i ≡ true
    pub before-xadd :
        (k : Text) (fs : Fields) (n : ℕ) (db : Db) (i : Text)
        → issued (cell db k) i ≡ true
        → before i (xadd k fs n db).0 ≡ true
    pub entries-xadd :
        (k : Text) (fs : Fields) (n : ℕ) (db : Db)
        → (d : ℕ) × (entries (cell (xadd k fs n db).1 k)
            ≡ drop d (entries (cell db k) ++ record { id = (xadd k fs n db).0; fields = fs } ∷ []))
          × ((d ≡ 0) ⊎ (n ≤ length (entries (cell (xadd k fs n db).1 k))))
    pub xrange_lem :
        (k : Text) (from : Option Text) (n : ℕ) (db : Db)
        → xrange db k from n ≡ take n (past from (entries (cell db k)))

-- The JSON of the two blobs in an agent's hash: the list of group names, and the client's `meta`
-- object, whose content the server never reads.
pub record Json : Type 1 where
  pub Meta : Type 0
  pub dump_groups : List Text → Text
  pub load_groups : Text → List Text
  pub dump_meta : Meta → Text
  pub load_meta : Text → Meta
  pub load-dump_groups : (gs : List Text) → load_groups (dump_groups gs) ≡ gs
  pub load-dump_meta : (m : Meta) → load_meta (dump_meta m) ≡ m
