-- ===== src/Store/Agents/Reading.antt =====
-- Reading the fields of a hash.
use muster_chat.Base.{
  ◌≡◌, refl, false, [], ◌∷◌, some, ok, ℤ, Text, Fields, is_empty, strip, int_of_text, lookup, arith,
}
use muster_chat.Store.Agents.{item, item_or, int_item}

pub item-some : (k t : Text) (fs : Fields) → lookup k fs ≡ some t → item k fs ≡ ok t
unfolding item
item-some k t fs h = rw (item, h)

no_empty_number : (t : Text) (z : ℤ) → int_of_text t ≡ some z → is_empty t ≡ false
unfolding int_of_text strip
no_empty_number [] z h = absurd (ground arith)
no_empty_number (c ∷ t) z h = refl

pub item_or-some :
    (k default t : Text) (fs : Fields) → lookup k fs ≡ some t → item_or k default fs ≡ t
unfolding item_or
item_or-some k default t fs h = rw (item_or, h)

pub int_item-some :
    (k default t : Text) (z : ℤ) (fs : Fields)
    → lookup k fs ≡ some t
    → int_of_text t ≡ some z
    → int_item k default fs ≡ ok z
unfolding int_item
int_item-some k default t z fs h i = rw (item_or-some k default t fs h, no_empty_number t z i, i)
