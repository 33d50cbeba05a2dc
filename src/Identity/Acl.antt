-- ===== src/Identity/Acl.antt =====
-- The authorization rule, against its description.
use muster_chat.Base.{
  ◌≡◌, ◌⊎◌, inl, inr, ◌↔◌, List, [], ◌∷◌, true, Text, ◌==◌, ==_iff, ==_sound, contains, any_sound,
  any_complete, In, arith, Bool-cases, here, there,
}
use muster_chat.Identity.{share, visible}

pub contains-In : (xs : List Text) {t : Text} → contains xs t ≡ true → In t xs
contains-In [] h = absurd (ground arith)
contains-In (x ∷ xs) {t} h = elim (Bool-cases (x == t)) [
  | inl q ↦ here (==_sound x t q)
  | inr q ↦ there (contains-In xs (rw q at h))
]

pub In-contains : {t : Text} {xs : List Text} → In t xs → contains xs t ≡ true
In-contains {t} (here {x} e) = ground (arith, ==_iff x t)
In-contains (there m) = ground (arith, In-contains m)

-- The two lists of groups have a member in common.
abbrev pub Shared : List Text → List Text → Type 0
Shared xs ys = (g : Text) × In g xs × In g ys

share-Shared : (xs ys : List Text) → share xs ys ≡ true → Shared xs ys
share-Shared xs ys h = let (g, m, k) = any_sound (contains ys) xs h in (g, m, contains-In ys k)

Shared-share : (xs ys : List Text) → Shared xs ys → share xs ys ≡ true
Shared-share xs ys (g, m, k) = any_complete (contains ys) m (In-contains k)

-- A caller sees an agent exactly when the agent is the caller's own or they share a group.
pub visible_iff :
    (cu : Text) (cg : List Text) (au : Text) (ag : List Text)
    → (visible cu cg au ag ≡ true) ↔ ((cu ≡ au) ⊎ Shared cg ag)
unfolding visible
visible_iff cu cg au ag = (
  λ h. elim (Bool-cases (cu == au)) [
    | inl q ↦ inl (==_sound cu au q)
    | inr q ↦ inr (share-Shared cg ag (rw q at h))
  ],
  λ d. elim d [
    | inl e ↦ ground (arith, ==_iff cu au)
    | inr s ↦ ground (arith, Shared-share cg ag s)
  ],
)
