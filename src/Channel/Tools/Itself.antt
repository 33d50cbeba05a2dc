-- ===== src/Channel/Tools/Itself.antt =====
-- Which rows of a roster an agent takes for its own.
use muster_chat.Base.{
  ◌≡◌, refl, ap, Bool, true, false, not, List, [], ◌∷◌, ◌++◌, some, ok, Text, ◌==◌, join, Lacks,
  All, select, arith, if◌then◌else◌,
}
use muster_chat.Identity.{slash}
use muster_chat.Ops.Types.{PublicRow}
use muster_chat.Channel.{after_slash, is_self}
use muster_chat.Channel.Tools.{others}

pub after_slash-append : (u t : Text) → Lacks slash u → after_slash (u ++ (slash ∷ t)) ≡ some t
unfolding after_slash
after_slash-append [] t h = refl
after_slash-append (c ∷ u) t (h, hs) = ground (arith, after_slash-append u t hs)

module _ {Meta : Type 0} where
  -- the four segments behind the user
  abbrev pub half_of : PublicRow Meta → Text
  half_of a = join (slash ∷ []) (a.host ∷ a.runtime ∷ a.project ∷ a.session ∷ [])

  -- The address of a row is made of its segments, and its user holds no slash.
  abbrev pub IsAddressed : PublicRow Meta → Type 0
  IsAddressed a = (a.addr ≡ a.user ++ (slash ∷ half_of a)) × Lacks slash a.user

  is_self-addressed :
      (agent : Text) (a : PublicRow Meta)
      → IsAddressed a
      → is_self {Meta = Meta} agent a.addr ≡ ok (half_of a == agent)
  unfolding is_self
  is_self-addressed agent a (e, h) = rw (e, after_slash-append a.user (half_of a) h, is_self) refl

  -- Where the rows have whole addresses of users with no slash, the agent leaves out the rows whose
  -- host, runtime, project and session are its own, of whatever user, and keeps all others in
  -- order.
  pub others_lem :
      (agent : Text) (agents : List (PublicRow Meta))
      → All IsAddressed agents
      → others agent agents ≡ ok (select (λ a. not (half_of a == agent)) agents)
  unfolding others
  others_lem agent [] h = refl
  others_lem agent (a ∷ agents) (h, hs) =
      rw (is_self-addressed agent a h, others_lem agent agents hs)
        (ap ok (kept (half_of a == agent)))
    where
      kept :
          (b : Bool)
          → (if b
              then select (λ a. not (half_of a == agent)) agents
              else a ∷ select (λ a. not (half_of a == agent)) agents)
            ≡ (if not b
                then a ∷ select (λ a. not (half_of a == agent)) agents
                else select (λ a. not (half_of a == agent)) agents)
      kept true = refl
      kept false = refl
