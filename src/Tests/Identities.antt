-- ===== src/Tests/Identities.antt =====
-- Addresses, references and the clients' headers.
use muster_chat.Base.{◌≡◌, ◌≢◌, ◌↔◌, ◌⊎◌, true, [], ◌∷◌, codes, split}
use muster_chat.Identity.{slash, matches, visible}
use muster_chat.Identity.Reference.{IsSlice, matches_iff}
use muster_chat.Identity.Acl.{Shared, visible_iff}

matches_iff_example :
    (matches (codes "cc/web") (codes "ann/desk/cc/web/1") ≡ true)
    ↔ ((codes "cc/web" ≢ []) × IsSlice (codes "cc/web") (split slash (codes "ann/desk/cc/web/1")))
matches_iff_example = matches_iff (codes "cc/web") (codes "ann/desk/cc/web/1")

visible_iff_example :
    (visible (codes "ann") (codes "ops" ∷ []) (codes "bob") (codes "web" ∷ codes "ops" ∷ []) ≡ true)
    ↔ ((codes "ann" ≡ codes "bob") ⊎ Shared (codes "ops" ∷ []) (codes "web" ∷ codes "ops" ∷ []))
visible_iff_example =
    visible_iff (codes "ann") (codes "ops" ∷ []) (codes "bob") (codes "web" ∷ codes "ops" ∷ [])
