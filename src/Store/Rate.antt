-- ===== src/Store/Rate.antt =====
-- `rate_check`: a counter for each kind of message and sender, which expires with its window.
pub mod Frame
pub mod Window
use mathlib.Core.Path.{subst}
use muster_chat.Base.{
  ◌⊎◌, ℕ, zero, suc, ◌+◌, ◌≤◌, ◌<◌, max, ◌≡◌, refl, Bool, true, false, List, [], ◌∷◌, Text, ltb,
  if◌then◌else◌, arith, ap, ◌∙◌, Bool-cases, inl, inr,
}
use muster_chat.Valkey.{Valkey, Laws, Ttl, missing, persistent, seconds}
use muster_chat.Store.Keys.{rate_key}

module _ (v : Valkey) where
  open v use {Db, cell, counter, ttl, incr, expire, expire_nx}

  -- the transaction: INCR, and EXPIRE NX
  unfoldable pub count_one : Text → ℕ → Db → Db
  count_one k window db = expire_nx k window (incr k db)

  -- the refusal, whose `retry_after` is at least 1; a counter with no expiry is given one
  unfoldable pub refuse : Text → ℕ → Ttl → Db → (Bool × ℕ) × Db
  refuse k window (seconds n) db = ((false, max n 1), db)
  refuse k window left db = ((false, max window 1), expire k window db)

  -- the answer, from the count that the transaction returned
  unfoldable pub verdict : Text → ℕ → ℕ → Db → (Bool × ℕ) × Db
  unfolding refuse
  verdict k limit window db =
      if ltb limit (counter (cell db k))
      then refuse k window (ttl (cell db k)) db
      else ((true, 0), db)

  unfoldable pub rate_check : Text → Text → ℕ → ℕ → Db → (Bool × ℕ) × Db
  unfolding count_one verdict
  rate_check kind a limit window db =
      let k = rate_key kind a in verdict k limit window (count_one k window db)

module _ (v : Valkey) (laws : Laws v) where
  open v use {Db, cell, counter}
  open laws use {counter-incr, counter-expire, counter-expire_nx}

  refuse_lem :
      (k : Text) (window : ℕ) (left : Ttl) (db : Db)
      → 0 < window
      → (counter (cell (refuse v k window left db).1 k) ≡ counter (cell db k))
        × ((refuse v k window left db).0.0 ≡ false)
        × (1 ≤ (refuse v k window left db).0.1)
  unfolding refuse
  refuse_lem k window (seconds n) db h = (refl, refl, omega arith)
  refuse_lem k window _ db h = (counter-expire k window db h, refl, omega arith)

  -- What an answer says of the count: within the limit and no wait, or above it and a wait.
  abbrev pub Verdict : ℕ → ℕ → Bool × ℕ → Type 0
  Verdict n limit (passed, retry) =
      ((n ≤ limit) × (passed ≡ true) × (retry ≡ 0)) ⊎ ((limit < n) × (passed ≡ false) × (1 ≤ retry))

  verdict_lem :
      (k : Text) (limit window : ℕ) (db : Db)
      → 0 < window
      → (counter (cell (verdict v k limit window db).1 k) ≡ counter (cell db k))
        × Verdict (counter (cell db k)) limit (verdict v k limit window db).0
  verdict_lem k limit window db h = elim (Bool-cases (ltb limit (counter (cell db k)))) [
    | inl q ↦
        let (c, f, w) = refuse_lem k window (v.ttl (cell db k)) db h in
        unfold verdict in rw q (c, inr (ground arith, f, w))
    | inr q ↦ unfold verdict in rw q (refl, inl (ground arith, refl, refl))
  ]

  -- Where the window is positive, a check counts one message, lets it pass exactly while the count
  -- is within the limit, and otherwise asks for a wait of at least a second.
  pub rate_check_lem :
      (kind a : Text) (limit window : ℕ) (db : Db)
      → 0 < window
      → (counter (cell (rate_check v kind a limit window db).1 (rate_key kind a))
          ≡ counter (cell db (rate_key kind a)) + 1)
        × Verdict
            (counter (cell db (rate_key kind a)) + 1)
            limit
            (rate_check v kind a limit window db).0
  rate_check_lem kind a limit window db h =
      let k = rate_key kind a in
      let e : counter (cell (count_one v k window db) k) ≡ counter (cell db k) + 1 =
        unfold count_one in counter-expire_nx k window _ h ∙ counter-incr k db in
      let (c, w) = verdict_lem k limit window (count_one v k window db) h in
      unfold rate_check in
      (
        c ∙ e,
        subst (λ n. Verdict n limit (verdict v k limit window (count_one v k window db)).0) e w,
      )
