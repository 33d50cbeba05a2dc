-- ===== src/GitMeta/Worktrees.antt =====
-- The names that the worktrees of a repository have.
use mathlib.Core.List.{reverse, reverse-append, reverse-reverse, reverse-cons}
use muster_chat.Base.{
  ℕ, ◌≡◌, ◌≢◌, refl, sym, ap, ◌∙◌, List, [], ◌∷◌, ◌++◌, append_assoc, Option, none, some, Text,
  codes, ◌==◌, ==_refl, ==_of_ne, length, length-append, All-reverse, Lacks, is_empty_of_ne, strip,
  arith, if◌then◌else◌,
}
use muster_chat.Identity.{slash}
use muster_chat.Naming.{drop_slashes, rstrip_slash, derive_project}
use muster_chat.GitMeta.{or_missing, cut, basename, dirname, git, identity_of, git_identity}

cut-none : (s : Text) → Lacks slash s → cut s ≡ none
unfolding cut
cut-none [] h = refl
cut-none (c ∷ s) (h, hs) = ground (arith, cut-none s hs)

cut-append : (p s : Text) → Lacks slash s → cut (p ++ (slash ∷ s)) ≡ some (p, s)
unfolding cut
cut-append [] s h = rw (cut-none s h) refl
cut-append (c ∷ p) s h = rw (cut-append p s h) refl

basename-append : (p s : Text) → Lacks slash s → basename (p ++ (slash ∷ s)) ≡ s
unfolding basename
basename-append p s h = rw (basename, cut-append p s h) refl

drop_slashes-append : (s t : Text) → Lacks slash s → s ≢ [] → drop_slashes (s ++ t) ≡ s ++ t
unfolding drop_slashes
drop_slashes-append [] t h n = absurd (n refl)
drop_slashes-append (c ∷ s) t (h, hs) n = ground arith

reverse-ne-nil : (s : Text) → s ≢ [] → reverse s ≢ []
reverse-ne-nil s h e = h (sym (reverse-reverse s) ∙ ap reverse e)

-- A path that ends in a name is not shortened.
rstrip_slash-append :
    (p s : Text) → Lacks slash s → s ≢ [] → rstrip_slash (p ++ (slash ∷ s)) ≡ p ++ (slash ∷ s)
rstrip_slash-append p s h n =
    ap reverse (kept (reverse (p ++ (slash ∷ s))) turned) ∙ reverse-reverse (p ++ (slash ∷ s))
  where
    turned : reverse (p ++ (slash ∷ s)) ≡ reverse s ++ (slash ∷ reverse p)
    turned =
        reverse-append p (slash ∷ s)
        ∙ ap (λ t. t ++ reverse p) (reverse-cons slash s)
        ∙ append_assoc (reverse s) (slash ∷ []) (reverse p)

    kept : (t : Text) → t ≡ reverse s ++ (slash ∷ reverse p) → drop_slashes t ≡ t
    kept t e = rw e (
        drop_slashes-append (reverse s) (slash ∷ reverse p) (All-reverse (λ d. d ≢ slash) s h)
          (reverse-ne-nil s n))

ne-nil-append : (p s : Text) → p ++ (slash ∷ s) ≢ []
ne-nil-append [] s e = ground arith
ne-nil-append (c ∷ p) s e = ground arith

-- The directory of a path in a named directory.
dirname-append :
    (p s t : Text)
    → Lacks slash s
    → s ≢ []
    → Lacks slash t
    → dirname ((p ++ (slash ∷ s)) ++ (slash ∷ t)) ≡ p ++ (slash ∷ s)
unfolding dirname
dirname-append p s t h n k =
    rw
      (
        dirname,
        cut-append (p ++ (slash ∷ s)) t k,
        rstrip_slash-append p s h n,
        is_empty_of_ne (p ++ (slash ∷ s)) (ne-nil-append p s),
      )
      refl

-- The directory that a repository has in common with its worktrees.
abbrev pub common_dir : Text → Text → Text → Text
common_dir above repo git_dir = (above ++ (slash ∷ repo)) ++ (slash ∷ git_dir)

-- A checkout of a repository: the main one, or a linked one, whose git directory has a parent and a name.
pub data Checkout : Type 0 where
  main_checkout : Checkout
  linked : (parent name : Text) → Checkout

abbrev pub gitdir_of : Text → Checkout → Text
gitdir_of common main_checkout = common
gitdir_of common (linked parent name) = parent ++ (slash ∷ name)

abbrev pub name_of : Checkout → Option Text
name_of main_checkout = none
name_of (linked parent name) = some name

-- The git directory of a linked checkout is another than that of the repository, and has a name.
abbrev pub IsCheckout : Text → Checkout → Type 0
IsCheckout common main_checkout = Unit
IsCheckout common (linked parent name) =
    (parent ++ (slash ∷ name) ≢ common) × Lacks slash name × (name ≢ [])

-- The project of a checkout.
abbrev pub label : Text → Option Text → Text
label repo none = repo
label repo (some name) = repo ++ (b'~' ∷ name)

append_longer : (s : Text) (c : ℕ) (t : Text) → s ≢ s ++ (c ∷ t)
append_longer s c t e = absurd (omega (arith, ap length e, length-append s (c ∷ t)))

append_cancel : (s a b : Text) → s ++ a ≡ s ++ b → a ≡ b
append_cancel [] a b e = e
append_cancel (c ∷ s) a b e = append_cancel s a b (cc e)

label-injective : (repo : Text) (x y : Option Text) → label repo x ≡ label repo y → x ≡ y
label-injective repo none none e = refl
label-injective repo none (some b) e = absurd (append_longer repo b'~' b e)
label-injective repo (some a) none e = absurd (append_longer repo b'~' a (sym e))
label-injective repo (some a) (some b) e = cc (append_cancel repo (b'~' ∷ a) (b'~' ∷ b) e)

module _ (run : List Text → Option Text) (real : Text → Text → Text) where
  identity_of-named :
      (above repo git_dir gitdir : Text)
      → Lacks slash repo
      → repo ≢ []
      → Lacks slash git_dir
      → identity_of run real (common_dir above repo git_dir) gitdir ≡ (
        some repo,
        if gitdir == common_dir above repo git_dir then none else some (basename gitdir),
      )
  unfolding identity_of or_missing
  identity_of-named above repo git_dir gitdir h n k =
      rw
        (
          dirname-append above repo git_dir h n k,
          basename-append above repo h,
          is_empty_of_ne repo n,
        )
        refl

  -- What git says of a directory: the repository's own directory, and that of the checkout.
  pub record Says (cwd common gitdir : Text) : Type 0 where
    pub common_out : Text
    pub gitdir_out : Text
    pub ran_common :
        run (git cwd (codes "rev-parse" ∷ codes "--git-common-dir" ∷ [])) ≡ some common_out
    pub ran_gitdir : run (git cwd (codes "rev-parse" ∷ codes "--git-dir" ∷ [])) ≡ some gitdir_out
    pub at_common : real cwd (strip common_out) ≡ common
    pub at_gitdir : real cwd (strip gitdir_out) ≡ gitdir

  git_identity-said :
      (cwd common gitdir : Text)
      → Says cwd common gitdir
      → git_identity run real cwd ≡ identity_of run real common gitdir
  unfolding git_identity identity_of
  git_identity-said cwd common gitdir says =
      rw (git_identity, says.ran_common, says.ran_gitdir, says.at_common, says.at_gitdir) refl

  -- the project of the directory in which a client starts
  abbrev pub project_of : Text → Text
  project_of cwd = derive_project (git_identity run real cwd) cwd

  module _ (above repo git_dir : Text)
      (named : Lacks slash repo × (repo ≢ []) × Lacks slash git_dir) where
    abbrev common : Text
    common = common_dir above repo git_dir

    checkout_project :
        (cwd : Text) (k : Checkout)
        → IsCheckout common k
        → Says cwd common (gitdir_of common k)
        → project_of cwd ≡ label repo (name_of k)
    unfolding derive_project
    checkout_project cwd main_checkout h says =
        rw
          (
            git_identity-said cwd common common says,
            identity_of-named above repo git_dir common named.0 named.1 named.2,
            ==_refl common,
            is_empty_of_ne repo named.1,
          )
          refl
    checkout_project cwd (linked parent name) (apart, lacks, ne) says =
        rw
          (
            git_identity-said cwd common (parent ++ (slash ∷ name)) says,
            identity_of-named above repo git_dir (parent ++ (slash ∷ name)) named.0 named.1 named.2,
            ==_of_ne (parent ++ (slash ∷ name)) common apart,
            basename-append parent name lacks,
            is_empty_of_ne repo named.1,
            is_empty_of_ne name ne,
          )
          refl

    -- Two directories of one repository, whose directory and name hold no further slash, have the
    -- same project only where both are in the main checkout or both in a worktree of the same name.
    pub checkouts_apart :
        (cwd cwd' : Text) (k l : Checkout)
        → IsCheckout common k
        → IsCheckout common l
        → Says cwd common (gitdir_of common k)
        → Says cwd' common (gitdir_of common l)
        → project_of cwd ≡ project_of cwd'
        → name_of k ≡ name_of l
    checkouts_apart cwd cwd' k l hk hl sk sl same =
        label-injective repo (name_of k) (name_of l)
          (sym (checkout_project cwd k hk sk) ∙ same ∙ checkout_project cwd' l hl sl)
