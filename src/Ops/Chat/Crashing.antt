-- ===== src/Ops/Chat/Crashing.antt =====
-- How `op_fetch` can fail.
use muster_chat.Base.{
  ℕ, zero, suc, ◌≡◌, sym, [], ◌∷◌, List, Result, ok, err, err-injective, ℤ, pos, negsuc, codes,
  int_of_text, arith, Option-cases, inl, inr,
}
use muster_chat.Base.Handlers.{after_error}
use muster_chat.Valkey.{Valkey, Json, Entry}
use muster_chat.Identity.{Address, address_text}
use muster_chat.Store.Agents.{Crash, data_error, value_error}
use muster_chat.Store.Deliver.{World}
use muster_chat.Store.Inbox.{fetch_unread}
use muster_chat.Ops.Types.{
  Args, arg, Value, null, bool, int, text, Failure, crashed, int_arg, count_arg,
}
use muster_chat.Ops.Chat.{op_fetch, read_inbox, fetched_all}

-- A failure that is no answer to the caller.
abbrev IsCrash : {Meta : Type 0} → Failure Meta → Type 0
IsCrash {Meta} e = (c : Crash) × (e ≡ crashed c)

int_arg-IsCrash : {Meta : Type 0} (a : Value) (e : Failure Meta) → int_arg a ≡ err e → IsCrash e
unfolding int_arg
int_arg-IsCrash null e h = absurd (ground arith)
int_arg-IsCrash (bool b) e h = absurd (ground arith)
int_arg-IsCrash (int z) e h = absurd (ground arith)
int_arg-IsCrash (text []) e h = absurd (ground arith)
int_arg-IsCrash (text (c ∷ t)) e h = elim (Option-cases (int_of_text (c ∷ t))) [
  | inl q ↦ (value_error, sym (err-injective (rw (int_arg, q) at h)))
  | inr (z, q) ↦ absurd (ground (arith, rw (int_arg, q) at h))
]

count_arg-IsCrash : {Meta : Type 0} (z : ℤ) (e : Failure Meta) → count_arg z ≡ err e → IsCrash e
unfolding count_arg
count_arg-IsCrash (pos zero) e h = (data_error, sym (err-injective h))
count_arg-IsCrash (pos (suc n)) e h = absurd (ground arith)
count_arg-IsCrash (negsuc n) e h = (data_error, sym (err-injective h))

module _ (v : Valkey) (json : Json) where
  open json use {Meta}

  fetched_all-IsCrash :
      (r : Result Crash (List Entry)) (e : Failure Meta) → fetched_all v json r ≡ err e → IsCrash e
  unfolding fetched_all
  fetched_all-IsCrash (ok ms) e h = absurd (ground arith)
  fetched_all-IsCrash (err c) e h = (c, sym (err-injective h))

  -- A fetch fails by no answer to its caller.
  pub op_fetch-IsCrash :
      (now : ℕ) (sender : Address) (args : Args) (w : World v) (e : Failure Meta)
      → (op_fetch v json now sender args w).0 ≡ err e
      → IsCrash e
  unfolding op_fetch read_inbox
  op_fetch-IsCrash now sender args w e h =
      let asked = int_arg {Meta = Meta} (arg (codes "limit") args) in
      after_error {C = IsCrash e} asked _ w h (int_arg-IsCrash (arg (codes "limit") args) e)
        λ limit _ h'.
          after_error {C = IsCrash e} (count_arg {Meta = Meta} limit) _ w h'
            (count_arg-IsCrash limit e)
            λ count _ h''.
              fetched_all-IsCrash (fetch_unread v now (address_text sender) count w.db).0 e h''
