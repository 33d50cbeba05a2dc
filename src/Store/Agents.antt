-- ===== src/Store/Agents.antt =====
-- `register_agent` and `list_agents`: the directory of the agents.
pub mod Reading
pub mod Listing
use muster_chat.Base.{
  ℕ, Bool, true, false, List, [], ◌∷◌, Option, none, some, Result, ok, err, ℤ, pos, Text, Fields,
  codes, ltb, eqb, is_empty, lookup, decimal, int_of_text, if◌then◌else◌, ◌&&◌, ◌||◌, ◌>>=◌,
}
use muster_chat.Identity.{Address, address_text}
use muster_chat.Valkey.{Valkey, Json}
use muster_chat.Store.Keys.{agents_key, agent_key, presence_key}

-- An exception that no handler of the program catches.
pub data Crash : Type 0 where
  key_error value_error attribute_error data_error unicode_error : Crash

abbrev pub online : Text
online = codes "online"

abbrev pub offline : Text
offline = codes "offline"

-- `h[k]`
unfoldable pub item : Text → Fields → Result Crash Text
item k h = elim (lookup k h) [ none ↦ err key_error | some t ↦ ok t ]

-- `h.get(k, default)`
unfoldable pub item_or : Text → Text → Fields → Text
item_or k default h = elim (lookup k h) [ none ↦ default | some t ↦ t ]

-- `int(h.get(k, default) or 0)`
unfoldable pub int_item : Text → Text → Fields → Result Crash ℤ
unfolding item_or
int_item k default h =
    let t = item_or k default h in
    if is_empty t
    then ok (pos 0)
    else elim (int_of_text t) [ none ↦ err value_error | some z ↦ ok z ]

-- the order of `sorted` on texts, by code points
unfoldable pub text_leb : Text → Text → Bool
text_leb [] t = true
text_leb (c ∷ s) [] = false
text_leb (c ∷ s) (d ∷ t) = ltb c d || eqb c d && text_leb s t

pub insert_sorted : Text → List Text → List Text
insert_sorted t [] = t ∷ []
insert_sorted t (u ∷ us) =
    let rest = insert_sorted t us in if text_leb t u then t ∷ u ∷ us else u ∷ rest

unfoldable pub sorted : List Text → List Text
unfolding insert_sorted
sorted [] = []
sorted (t ∷ ts) = insert_sorted t (sorted ts)

-- A row of the directory.
pub record Row (Meta : Type 0) : Type 0 where
  pub addr : Text
  pub user : Text
  pub host : Text
  pub runtime : Text
  pub project : Text
  pub session : Text
  pub groups : List Text
  pub meta : Meta
  pub last_connect : ℤ
  pub status : Text

module _ (v : Valkey) (json : Json) where
  open v use {Db, cell, smembers, hgetall, exists, sadd, hset, expire}
  open json use {Meta, dump_groups, load_groups, dump_meta, load_meta}

  -- the hash of an agent
  unfoldable pub agent_fields : Address → List Text → Meta → ℕ → Fields
  agent_fields addr groups meta now =
      (codes "user", addr.user)
      ∷ (codes "host", addr.host)
      ∷ (codes "runtime", addr.runtime)
      ∷ (codes "project", addr.project)
      ∷ (codes "session", addr.session)
      ∷ (codes "groups", dump_groups groups)
      ∷ (codes "meta", dump_meta meta)
      ∷ (codes "last_connect", decimal now)
      ∷ []

  unfoldable pub register_agent : ℕ → Address → List Text → Meta → ℕ → Db → Db
  register_agent now addr groups meta retention db =
      let a = address_text addr in
      expire (agent_key a) retention
        (hset (agent_key a) (agent_fields addr groups meta now) (sadd agents_key a db))

  -- the row of an agent whose hash is there
  unfoldable pub row_of : Text → Fields → Bool → Result Crash (Row Meta)
  unfolding item item_or int_item
  row_of a h is_online = do
    user ← item (codes "user") h
    host ← item (codes "host") h
    runtime ← item (codes "runtime") h
    project ← item (codes "project") h
    session ← item (codes "session") h
    last_connect ← int_item (codes "last_connect") [] h
    ok (record {
      addr = a;
      user = user;
      host = host;
      runtime = runtime;
      project = project;
      session = session;
      groups = load_groups (item_or (codes "groups") (codes "[]") h);
      meta = load_meta (item_or (codes "meta") (codes "{}") h);
      last_connect = last_connect;
      status = if is_online then online else offline;
    })

  -- one round of the loop: an agent whose hash has expired is passed over
  unfoldable pub row_at : Text → Fields → Bool → Result Crash (Option (Row Meta))
  unfolding row_of
  row_at a [] is_online = ok none
  row_at a (f ∷ fs) is_online = row_of a (f ∷ fs) is_online >>= λ r. ok (some r)

  abbrev pub consed : Option (Row Meta) → List (Row Meta) → List (Row Meta)
  consed none rs = rs
  consed (some r) rs = r ∷ rs

  -- the loop over the addresses
  unfoldable pub rows : Db → List Text → Result Crash (List (Row Meta))
  rows db [] = ok []
  rows db (a ∷ as') =
      let rest = rows db as' in
      row_at a (hgetall (cell db (agent_key a))) (exists (cell db (presence_key a))) >>= λ r.
      rest >>= λ rs. ok (consed r rs)

  unfoldable pub list_agents : Db → Result Crash (List (Row Meta))
  unfolding rows
  list_agents db = rows db (sorted (smembers (cell db agents_key)))
