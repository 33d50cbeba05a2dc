-- ===== src/Store/Rate/Frame.antt =====
-- A rate check touches the counter of its sender alone.
use muster_chat.Base.{ℕ, ◌≡◌, ◌≢◌, refl, ◌∙◌, Text, Bool-cases, inl, inr, ltb}
use muster_chat.Valkey.{Valkey, Laws, Ttl, seconds}
use muster_chat.Store.Keys.{rate_key}
use muster_chat.Store.Rate.{count_one, refuse, rate_check}

module _ (v : Valkey) (laws : Laws v) where
  open v use {Db, cell, counter, ttl}
  open laws use {frame_incr, frame_expire, frame_expire_nx}

  refuse_frame :
      (k j : Text) (window : ℕ) (left : Ttl) (db : Db)
      → k ≢ j
      → cell (refuse v k window left db).1 j ≡ cell db j
  unfolding refuse
  refuse_frame k j window (seconds n) db h = refl
  refuse_frame k j window _ db h = frame_expire window k j db h

  -- What is kept at any other key stays as it is.
  pub rate_check_frame :
      (kind a j : Text) (limit window : ℕ) (db : Db)
      → rate_key kind a ≢ j
      → cell (rate_check v kind a limit window db).1 j ≡ cell db j
  unfolding rate_check count_one
  rate_check_frame kind a j limit window db h =
      let k = rate_key kind a in
      let counted = frame_expire_nx window k j _ h ∙ frame_incr k j db h in
      elim (Bool-cases (ltb limit (counter (cell (count_one v k window db) k)))) [
        | inl q ↦ rw q (refuse_frame k j window _ (count_one v k window db) h ∙ counted)
        | inr q ↦ rw q counted
      ]
