-- ===== src/Identity.antt =====
-- server/muster_api/identity.py: the address of an agent, references to agents, and the one
-- authorization rule. The proofs are in the children.
pub mod Header
pub mod Reference
pub mod Acl
use muster_chat.Base.{
  ℕ, ◌+◌, ◌-◌, Bool, true, false, ◌&&◌, ◌||◌, List, [], ◌∷◌, Result, ok, err, Text, codes, ◌==◌,
  is_empty, contains, join, split, length, take, drop, any, range, if◌then◌else◌,
}

-- the character between two segments of an address
abbrev pub slash : ℕ
slash = b'/'

-- `class AddressError`: the one message of the code
pub data AddressError : Type 0 where
  bad_agent_header : AddressError

pub record Address : Type 0 where
  pub user : Text
  pub host : Text
  pub runtime : Text
  pub project : Text
  pub session : Text

abbrev segments : Address → List Text
segments a = a.user ∷ a.host ∷ a.runtime ∷ a.project ∷ a.session ∷ []

-- `str(address)`
unfoldable pub address_text : Address → Text
address_text a = join (slash ∷ []) (segments a)

-- the four parts, if all are there
four_parts : Text → List Text → Result AddressError Address
four_parts user (h ∷ r ∷ p ∷ s ∷ []) =
    if is_empty h || is_empty r || is_empty p || is_empty s
    then err bad_agent_header
    else ok (record { user = user; host = h; runtime = r; project = p; session = s })
four_parts user _ = err bad_agent_header

unfoldable pub parse_agent_header : Text → Text → Result AddressError Address
unfolding four_parts
parse_agent_header user header = four_parts user (split slash header)

-- `"/".join(segs[i:j])`
abbrev pub slice_text : List Text → ℕ → ℕ → Text
slice_text segs i j = join (slash ∷ []) (take (j - i) (drop i segs))

unfoldable pub matches : Text → Text → Bool
matches [] addr = false
matches (c ∷ ref) addr =
    let segs = split slash addr in
    any (λ i. any (λ j. slice_text segs i j == c ∷ ref) (range (i + 1) (length segs + 1)))
      (range 0 (length segs))

-- `bool(set(xs) & set(ys))`
abbrev pub share : List Text → List Text → Bool
share xs ys = any (contains ys) xs

unfoldable pub visible : Text → List Text → Text → List Text → Bool
visible caller_user caller_groups agent_user agent_groups =
    caller_user == agent_user || share caller_groups agent_groups
