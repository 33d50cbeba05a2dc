-- ===== src/Valkey/Memory/Lawful.antt =====
-- The server in memory has the laws.
use muster_chat.Base.{
  ℕ, zero, suc, ◌+◌, ◌≤◌, ◌<◌, ◌≡◌, ◌≢◌, refl, ap, ◌∙◌, inl, true, false, not, ◌&&◌, List, [], ◌∷◌,
  ◌++◌, Option, none, some, Text, Fields, ◌==◌, ==_iff, ==_refl, contains, lookup, length, select,
  take, All, arith, length-append,
}
use muster_chat.Valkey.{Entry, missing, persistent, seconds, or_else, past, IsOrdered, Laws}
use muster_chat.Valkey.Memory.{
  Kept, kept, id_of, numbered, is_kept, time_left, Store, write, with_deadline, with_first_deadline,
  streamed, is_issued, earlier, behind, memory,
}

write_ne : (k j : Text) (c : Option Kept) (db : Store) → k ≢ j → write k c db j ≡ db j
write_ne k j c db h = ground (arith, ==_iff k j)

write_self : (k : Text) (c : Option Kept) (db : Store) → write k c db k ≡ c
write_self k c db = rw ==_refl

contains-select :
    (t u : Text) (xs : List Text)
    → contains (select (λ x. not (t == x)) xs) u ≡ (not (t == u) && contains xs u)
contains-select t u [] = ground arith
contains-select t u (x ∷ xs) =
    ground (arith, contains-select t u xs, ==_iff t x, ==_iff x u, ==_iff t u)

lookup-append :
    (f : Text) (xs ys : Fields) → lookup f (xs ++ ys) ≡ or_else (lookup f xs) (lookup f ys)
unfolding lookup
lookup-append f [] ys = refl
lookup-append f ((j, w) ∷ xs) ys = ground (arith, lookup-append f xs ys)

length-id_of : (n : ℕ) → length (id_of n) ≡ n + 1
length-id_of zero = refl
length-id_of (suc n) = omega (arith, length-id_of n)

numbered-append :
    (n : ℕ) (xs : List Fields) (f : Fields)
    → numbered n (xs ++ f ∷ [])
      ≡ numbered n xs ++ record { id = id_of (n + length xs); fields = f } ∷ []
numbered-append n [] f = ap (λ m. record { id = id_of m; fields = f } ∷ []) (omega arith)
numbered-append n (x ∷ xs) f =
    let e : suc n + length xs ≡ n + suc (length xs) = omega arith in
    ap (λ l. record { id = id_of n; fields = x } ∷ l)
      (numbered-append (suc n) xs f
        ∙ ap (λ m. numbered (suc n) xs ++ record { id = id_of m; fields = f } ∷ []) e)

numbered_above :
    (m n : ℕ) (fs : List Fields) → m < n → All (λ e. earlier (id_of m) e.id ≡ true) (numbered n fs)
numbered_above m n [] h = tt
numbered_above m n (f ∷ fs) h =
    (ground (arith, length-id_of m, length-id_of n), numbered_above m (suc n) fs (omega arith))

numbered-IsOrdered : (n : ℕ) (fs : List Fields) → IsOrdered memory (numbered n fs)
numbered-IsOrdered n [] = tt
numbered-IsOrdered n (f ∷ fs) =
    (numbered_above n (suc n) fs (omega arith), numbered-IsOrdered (suc n) fs)

numbered_below :
    (n m : ℕ) (fs : List Fields)
    → n + length fs ≤ m
    → All (λ e. is_issued m e.id ≡ true) (numbered n fs)
numbered_below n m [] h = tt
numbered_below n m (f ∷ fs) h =
    (ground (arith, length-id_of n), numbered_below (suc n) m fs (omega arith))

is_issued_nil : (n : ℕ) (i : Text) → is_issued n i ≡ true → i ≢ []
is_issued_nil n [] h e = ground arith
is_issued_nil n (c ∷ i) h e = ground arith

is_kept_of_hash : (c : Option Kept) → (kept c).hash ≢ [] → is_kept c ≡ true
is_kept_of_hash none h = absurd (h refl)
is_kept_of_hash (some c) h = refl

blank_of_absent :
    (c : Option Kept)
    → is_kept c ≡ false
    → ((kept c).hash ≡ [])
      × (streamed c ≡ [])
      × ((kept c).value ≡ none)
      × ((kept c).count ≡ 0)
      × (time_left c ≡ missing)
blank_of_absent none h = (refl, refl, refl, refl, refl)
blank_of_absent (some c) h = absurd (ground arith)

deadline_keeps :
    (n : ℕ) (c : Option Kept)
    → ((kept (with_deadline n c)).hash ≡ (kept c).hash)
      × ((kept (with_deadline n c)).count ≡ (kept c).count)
deadline_keeps n none = (refl, refl)
deadline_keeps n (some c) = (refl, refl)

first_deadline_lem :
    (n : ℕ) (c : Option Kept)
    → ((kept (with_first_deadline n c)).count ≡ (kept c).count)
      × (time_left (with_first_deadline n c) ≡ elim (time_left c) [
        | missing ↦ missing
        | persistent ↦ seconds n
        | seconds m ↦ seconds m
      ])
first_deadline_lem n none = (refl, refl)
first_deadline_lem n (some c) = ground arith

behind-past : (from : Option Text) (es : List Entry) → behind from es ≡ past memory from es
behind-past none es = refl
behind-past (some i) es = refl

-- The laws hold.
pub memory_laws : Laws memory
memory_laws = record {
  frame_sadd = λ t k j db. write_ne k j _ db;
  frame_srem = λ t k j db. write_ne k j _ db;
  frame_hset = λ t k j db. write_ne k j _ db;
  frame_expire = λ t k j db. write_ne k j _ db;
  frame_expire_nx = λ t k j db. write_ne k j _ db;
  frame_del = λ k j db. write_ne k j _ db;
  frame_set = λ t k j db. write_ne k j _ db;
  frame_incr = λ k j db. write_ne k j _ db;
  frame_xadd = λ fs n k j db. write_ne k j _ db;
  smembers-sadd = λ k t u db. rw ==_refl;
  smembers-srem = λ k t u db. rw ==_refl (contains-select t u _);
  hgetall-hset = λ k f fs db. rw ==_refl (lookup-append f fs _);
  exists_of_hgetall = λ c h. is_kept_of_hash c h;
  exists-del = λ k db. rw ==_refl;
  absent = λ c h. blank_of_absent c h;
  hgetall-expire = λ k n db h. rw ==_refl (deadline_keeps n (db k)).0;
  counter-expire = λ k n db h. rw ==_refl (deadline_keeps n (db k)).1;
  counter-expire_nx = λ k n db h. rw ==_refl (first_deadline_lem n (db k)).0;
  ttl-expire_nx = λ k n db. rw ==_refl (first_deadline_lem n (db k)).1;
  get-set = λ k t db. rw ==_refl;
  counter-incr = λ k db. rw ==_refl;
  before_irrefl = λ i. ground arith;
  before_trans = λ i j k p q. ground arith;
  issued-ne-nil = λ c i h e. is_issued_nil (length (kept c).stream) i h e;
  entries-IsOrdered = λ c. numbered-IsOrdered 0 (kept c).stream;
  issued-entries = λ c. numbered_below 0 (length (kept c).stream) (kept c).stream (omega arith);
  issued-xadd =
      λ k fs n db i h. rw ==_refl (ground (arith, length-append (kept (db k)).stream (fs ∷ [])));
  before-xadd = λ k fs n db i h. ground (arith, length-id_of (length (kept (db k)).stream));
  entries-xadd = λ k fs n db. (
    0,
    rw ==_refl (
        numbered-append 0 _ fs
        ∙ ap (λ m. streamed (db k) ++ record { id = id_of m; fields = fs } ∷ []) (omega arith)),
    inl refl,
  );
  xrange_lem = λ k from n db. ap (take n) (behind-past from (streamed (db k)));
}
