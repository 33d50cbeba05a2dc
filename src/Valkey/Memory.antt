-- ===== src/Valkey/Memory.antt =====
-- A concrete server, which shows that the laws of `Valkey` can hold together. A cell holds a value of
-- each kind, a stream never trims, and the identifier of its entry number n is a text of length n + 1.
pub mod Lawful
use muster_chat.Base.{
  ℕ, zero, suc, ◌+◌, ◌≤◌, ◌<◌, ◌≡◌, ◌≢◌, refl, ap, ◌∙◌, inl, Bool, true, false, not, ◌&&◌, List, [],
  ◌∷◌, ◌++◌, map, Option, none, some, Text, Fields, ◌==◌, ==_iff, ==_refl, contains, lookup, length,
  select, take, All, ltb, if◌then◌else◌, arith, length-append,
}
use muster_chat.Valkey.{
  Entry, Ttl, missing, persistent, seconds, Valkey, or_else, past, IsOrdered, Laws, Json,
}

pub record Kept : Type 0 where
  members : List Text
  hash : Fields
  pub value : Option Text
  pub count : ℕ
  deadline : Option ℕ
  pub stream : List Fields

abbrev blank : Kept
blank = record { members = []; hash = []; value = none; count = 0; deadline = none; stream = [] }

abbrev kept : Option Kept → Kept
kept none = blank
kept (some c) = c

-- the identifier of entry number n
abbrev id_of : ℕ → Text
id_of zero = b'1' ∷ []
id_of (suc n) = b'1' ∷ id_of n

abbrev numbered : ℕ → List Fields → List Entry
numbered n [] = []
numbered n (f ∷ fs) = record { id = id_of n; fields = f } ∷ numbered (suc n) fs

abbrev is_kept : Option Kept → Bool
is_kept none = false
is_kept (some c) = true

abbrev time_left : Option Kept → Ttl
time_left none = missing
time_left (some c) = elim c.deadline [ none ↦ persistent | some n ↦ seconds n ]

abbrev pub Store : Type 0
Store = Text → Option Kept

abbrev write : Text → Option Kept → Store → Store
write k c db j = if k == j then c else db j

abbrev with_deadline : ℕ → Option Kept → Option Kept
with_deadline n none = none
with_deadline n (some c) = some (record c { deadline = some n })

abbrev with_first_deadline : ℕ → Option Kept → Option Kept
with_first_deadline n none = none
with_first_deadline n (some c) = elim c.deadline [
  | none ↦ some (record c { deadline = some n })
  | some m ↦ some c
]

abbrev streamed : Option Kept → List Entry
streamed c = numbered 0 (kept c).stream

abbrev is_issued : ℕ → Text → Bool
is_issued n i = ltb 0 (length i) && ltb (length i) (n + 1)

abbrev earlier : Text → Text → Bool
earlier i j = ltb (length i) (length j)

abbrev behind : Option Text → List Entry → List Entry
behind none es = es
behind (some i) es = select (λ e. earlier i e.id) es

abbrev pub memory : Valkey
memory = record {
  Db = Store;
  Cell = Option Kept;
  cell = λ db k. db k;
  smembers = λ c. (kept c).members;
  hgetall = λ c. (kept c).hash;
  exists = is_kept;
  get = λ c. (kept c).value;
  counter = λ c. (kept c).count;
  ttl = time_left;
  entries = streamed;
  issued = λ c i. is_issued (length (kept c).stream) i;
  before = earlier;
  xrange = λ db k from n. take n (behind from (streamed (db k)));
  sadd = λ k t db. write k (some (record (kept (db k)) { members = t ∷ (kept (db k)).members })) db;
  srem = λ k t db.
      write k
        (some (record (kept (db k)) { members = select (λ u. not (t == u)) (kept (db k)).members }))
        db;
  hset = λ k fs db. write k (some (record (kept (db k)) { hash = fs ++ (kept (db k)).hash })) db;
  expire = λ k n db. write k (with_deadline n (db k)) db;
  expire_nx = λ k n db. write k (with_first_deadline n (db k)) db;
  del = λ k db. write k none db;
  set_value = λ k t db. write k (some (record (kept (db k)) { value = some t })) db;
  incr = λ k db. write k (some (record (kept (db k)) { count = (kept (db k)).count + 1 })) db;
  xadd = λ k fs n db. (
    id_of (length (kept (db k)).stream),
    write k (some (record (kept (db k)) { stream = (kept (db k)).stream ++ fs ∷ [] })) db,
  );
}

-- the database with nothing in it
abbrev pub nothing : Store
nothing k = none

-- A list of texts as one text: each character is shifted by one, and a zero ends each text.
abbrev glue : List Text → Text
glue [] = []
glue (g ∷ gs) = map suc g ++ (zero ∷ glue gs)

abbrev onto : ℕ → List Text → List Text
onto c [] = []
onto c (g ∷ gs) = (c ∷ g) ∷ gs

abbrev unglue : Text → List Text
unglue [] = []
unglue (zero ∷ s) = [] ∷ unglue s
unglue (suc c ∷ s) = onto c (unglue s)

unglue_text : (g s : Text) → unglue (map suc g ++ (zero ∷ s)) ≡ g ∷ unglue s
unglue_text [] s = refl
unglue_text (c ∷ g) s = ap (onto c) (unglue_text g s)

pub unglue-glue : (gs : List Text) → unglue (glue gs) ≡ gs
unglue-glue [] = refl
unglue-glue (g ∷ gs) = unglue_text g (glue gs) ∙ ap (λ l. g ∷ l) (unglue-glue gs)

-- Blobs that can be read back.
abbrev pub plain_json : Json
plain_json = record {
  Meta = Text;
  dump_groups = glue;
  load_groups = unglue;
  dump_meta = λ m. m;
  load_meta = λ m. m;
  load-dump_groups = unglue-glue;
  load-dump_meta = λ m. refl;
}
