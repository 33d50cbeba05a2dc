-- ===== src/Identity/Header.antt =====
-- The agent header: what is accepted, and what the server makes of it.
use mathlib.Core.Path.{subst}
use muster_chat.Base.{
  ◌≡◌, refl, ap, ◌∙◌, sym, ◌≢◌, List, [], ◌∷◌, ok, Text, join, split, Lacks, All, split-join,
  join-split, split-Lacks, arith, ne_of_is_empty, is_empty_of_ne,
}
use muster_chat.Identity.{slash, Address, parse_agent_header, four_parts}

-- A segment of an address: some text with no slash.
abbrev pub IsSegment : Text → Type 0
IsSegment s = Lacks slash s × (s ≢ [])

-- The part of an address that the client names.
abbrev pub client_half : Address → List Text
client_half a = a.host ∷ a.runtime ∷ a.project ∷ a.session ∷ []

four_parts_complete :
    (a : Address) → All IsSegment (client_half a) → four_parts a.user (client_half a) ≡ ok a
unfolding four_parts
four_parts_complete a ((_, h), ((_, r), ((_, p), ((_, s), _)))) =
    rw (is_empty_of_ne _ h, is_empty_of_ne _ r, is_empty_of_ne _ p, is_empty_of_ne _ s)

-- A header that joins four segments is read back as the address with these segments.
pub parse_agent_header_complete :
    (a : Address)
    → All IsSegment (client_half a)
    → parse_agent_header a.user (join (slash ∷ []) (client_half a)) ≡ ok a
unfolding parse_agent_header
parse_agent_header_complete a h =
    ap (four_parts a.user) (
      split-join slash a.host (a.runtime ∷ a.project ∷ a.session ∷ [])
        (h.0.0, (h.1.0.0, (h.1.1.0.0, (h.1.1.1.0.0, tt)))))
    ∙ four_parts_complete a h

four_parts_inv :
    (user x y z w : Text) {a : Address}
    → four_parts user (x ∷ y ∷ z ∷ w ∷ []) ≡ ok a
    → (x ≢ [])
      × (y ≢ [])
      × (z ≢ [])
      × (w ≢ [])
      × (record { user = user; host = x; runtime = y; project = z; session = w } ≡ a)
unfolding four_parts
four_parts_inv user x y z w h =
    ground (arith, ne_of_is_empty x, ne_of_is_empty y, ne_of_is_empty z, ne_of_is_empty w)

four_parts_sound :
    (user : Text) (parts : List Text) {a : Address}
    → All (Lacks slash) parts
    → four_parts user parts ≡ ok a
    → (a.user ≡ user) × (parts ≡ client_half a) × All IsSegment (client_half a)
unfolding four_parts
four_parts_sound user [] l h = absurd (ground arith)
four_parts_sound user (x ∷ []) l h = absurd (ground arith)
four_parts_sound user (x ∷ y ∷ []) l h = absurd (ground arith)
four_parts_sound user (x ∷ y ∷ z ∷ []) l h = absurd (ground arith)
four_parts_sound user (x ∷ y ∷ z ∷ w ∷ []) {a} (lx, (ly, (lz, (lw, _)))) h =
    let (nx, ny, nz, nw, e) = four_parts_inv user x y z w h in
    subst
      (λ b. (b.user ≡ user) × (x ∷ y ∷ z ∷ w ∷ [] ≡ client_half b) × All IsSegment (client_half b))
      e (refl, refl, ((lx, nx), ((ly, ny), ((lz, nz), ((lw, nw), tt)))))
four_parts_sound user (x ∷ y ∷ z ∷ w ∷ v ∷ ps) l h = absurd (ground arith)

-- An accepted header gives an address with the stamped user, whose other four segments are not
-- empty, hold no slash, and make up the header.
pub parse_agent_header_sound :
    (user header : Text) {a : Address}
    → parse_agent_header user header ≡ ok a
    → (a.user ≡ user) × (join (slash ∷ []) (client_half a) ≡ header) × All IsSegment (client_half a)
unfolding parse_agent_header
parse_agent_header_sound user header h =
    let (u, e, s) = four_parts_sound user (split slash header) (split-Lacks slash header) h in
    (u, ap (join (slash ∷ [])) (sym e) ∙ join-split slash header, s)
