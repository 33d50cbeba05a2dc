-- ===== src/Store/Inbox/Order.antt =====
-- Positions in an ordered stream: what is left to read behind the last entry that was read.
use mathlib.Core.Path.{subst}
use muster_chat.Base.{
  ℕ, zero, suc, ◌≡◌, refl, ap, Bool, true, false, List, [], ◌∷◌, Option, none, some, Text, All,
  take, drop, last?, select, arith, Bool-cases, inl, inr,
}
use muster_chat.Valkey.{Valkey, Laws, Entry, past, IsOrdered}

the_one : (P : Entry → Type 0) (x e : Entry) → P x → x ≡ e → P e
the_one P x e h q = subst P q h

module _ (v : Valkey) (laws : Laws v) where
  open v use {Db, cell, get, entries, before}
  open laws use {before_irrefl, before_trans, entries-IsOrdered, xrange_lem, frame_set, get-set}

  abbrev After : Text → List Entry → Type 0
  After i = All (λ e. before i e.id ≡ true)

  past_all : (i : Text) (es : List Entry) → After i es → past v (some i) es ≡ es
  past_all i [] h = refl
  past_all i (e ∷ es) (h, hs) = rw h (ap (λ l. e ∷ l) (past_all i es hs))

  pub last?-take_All :
      (P : Entry → Type 0) (n : ℕ) (es : List Entry) (e : Entry)
      → All P es
      → last? (take n es) ≡ some e
      → P e
  last?-take_All P zero es e h l = absurd (ground arith)
  last?-take_All P (suc n) [] e h l = absurd (ground arith)
  last?-take_All P (suc zero) (x ∷ es) e (h, _) l = the_one P x e h (cc)
  last?-take_All P (suc (suc n)) (x ∷ []) e (h, _) l = the_one P x e h (cc)
  last?-take_All P (suc (suc n)) (x ∷ y ∷ es) e (_, h) l = last?-take_All P (suc n) (y ∷ es) e h l

  not_before : (i j : Text) → before i j ≡ true → before j i ≡ false
  not_before i j h = elim (Bool-cases (before j i)) [
    | inl q ↦ absurd (ground (arith, before_trans i j i h q, before_irrefl i))
    | inr q ↦ q
  ]

  past_head :
      (x e : Entry) (es : List Entry) → After x.id es → x ≡ e → past v (some e.id) (x ∷ es) ≡ es
  past_head x e es h q =
      subst (λ e'. past v (some e'.id) (x ∷ es) ≡ es) q
        (rw (before_irrefl x.id) (past_all x.id es h))

  -- The entries behind the last of the first `n` are the others.
  pub past_last :
      (n : ℕ) (es : List Entry) (e : Entry)
      → IsOrdered v es
      → last? (take n es) ≡ some e
      → past v (some e.id) es ≡ drop n es
  past_last zero es e h l = absurd (ground arith)
  past_last (suc n) [] e h l = absurd (ground arith)
  past_last (suc zero) (x ∷ es) e (h, _) l = past_head x e es h (cc)
  past_last (suc (suc n)) (x ∷ []) e (h, _) l = past_head x e [] h (cc)
  past_last (suc (suc n)) (x ∷ y ∷ es) e (h, hs) l =
      rw
        (not_before x.id e.id
          (last?-take_All (λ e'. before x.id e'.id ≡ true) (suc n) (y ∷ es) e h l))
        (past_last (suc n) (y ∷ es) e hs l)

  pub All-select :
      (P : Entry → Type 0) (p : Entry → Bool) (es : List Entry) → All P es → All P (select p es)
  All-select P p [] h = h
  All-select P p (e ∷ es) (h, hs) = elim (Bool-cases (p e)) [
    | inl q ↦ rw q (h, All-select P p es hs)
    | inr q ↦ rw q (All-select P p es hs)
  ]

  pub select-All : (p : Entry → Bool) (es : List Entry) → All (λ e. p e ≡ true) (select p es)
  select-All p [] = tt
  select-All p (e ∷ es) = elim (Bool-cases (p e)) [
    | inl q ↦ rw q (q, select-All p es)
    | inr q ↦ rw q (select-All p es)
  ]

  select-IsOrdered :
      (p : Entry → Bool) (es : List Entry) → IsOrdered v es → IsOrdered v (select p es)
  select-IsOrdered p [] h = h
  select-IsOrdered p (e ∷ es) (h, hs) = elim (Bool-cases (p e)) [
    | inl q ↦ rw q (All-select (λ e'. before e.id e'.id ≡ true) p es h, select-IsOrdered p es hs)
    | inr q ↦ rw q (select-IsOrdered p es hs)
  ]

  pub past-IsOrdered :
      (from : Option Text) (es : List Entry) → IsOrdered v es → IsOrdered v (past v from es)
  past-IsOrdered none es h = h
  past-IsOrdered (some i) es h = select-IsOrdered (λ e. before i e.id) es h

  -- Behind a later position there is the same to read, from either list.
  pub past_twice :
      (i j : Text) (es : List Entry)
      → before i j ≡ true
      → past v (some j) (past v (some i) es) ≡ past v (some j) es
  past_twice i j [] h = refl
  past_twice i j (e ∷ es) h = elim (Bool-cases (before i e.id)) [
    | inl q ↦ rw q (same q (past_twice i j es h))
    | inr q ↦ rw (q, not_later q) (past_twice i j es h)
  ]
    where
      same :
          before i e.id ≡ true
          → past v (some j) (past v (some i) es) ≡ past v (some j) es
          → past v (some j) (e ∷ past v (some i) es) ≡ past v (some j) (e ∷ es)
      same q ih = cc ih

      not_later : before i e.id ≡ false → before j e.id ≡ false
      not_later q = elim (Bool-cases (before j e.id)) [
        | inl r ↦ absurd (ground (arith, before_trans i j e.id h r))
        | inr r ↦ r
      ]
