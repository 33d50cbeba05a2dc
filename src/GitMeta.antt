-- ===== src/GitMeta.antt =====
-- plugins/muster/mcp/gitmeta.py: what is made of the output of git. Running a command, and
-- `os.path.realpath` of a path under a directory, are parameters.
pub mod Worktrees
use mathlib.Core.List.{reverse}
use muster_chat.Base.{
  ℕ, Bool, true, false, not, List, [], ◌∷◌, ◌++◌, Option, none, some, Text, codes, ◌==◌, eqb,
  is_empty, is_space, strip, if◌then◌else◌,
}
use muster_chat.Identity.{slash}
use muster_chat.Naming.{GitId, rstrip_slash}

-- the text before the last slash and behind it
unfoldable pub cut : Text → Option (Text × Text)
cut [] = none
cut (c ∷ s) = elim (cut s) [
  | none ↦ if eqb c slash then some ([], s) else none
  | some (head, tail) ↦ some (c ∷ head, tail)
]

-- `os.path.basename`
unfoldable pub basename : Text → Text
basename p = elim (cut p) [ none ↦ p | some (head, tail) ↦ tail ]

-- `os.path.dirname`, which keeps slashes where there is nothing else
unfoldable pub dirname : Text → Text
dirname p = elim (cut p) [
  | none ↦ []
  | some (head, tail) ↦
      if is_empty (rstrip_slash head) then head ++ slash ∷ [] else rstrip_slash head
]

-- `s.split()`, with the word that is being read
unfoldable words : Text → Text → List Text
words w [] = if is_empty w then [] else reverse w ∷ []
words w (c ∷ s) =
    let ended = words [] s in
    let more = words (c ∷ w) s in
    if is_space c then (if is_empty w then ended else reverse w ∷ ended) else more

-- `s.strip() or None`
unfoldable stripped : Text → Option Text
stripped s = if is_empty (strip s) then none else some (strip s)

-- `x or None`
unfoldable pub or_missing : Text → Option Text
or_missing t = if is_empty t then none else some t

abbrev git : Text → List Text → List Text
git cwd args = codes "git" ∷ codes "-C" ∷ cwd ∷ args

-- `run` gives the output of a command, `none` where `_run` raises; `real` resolves a path.
module _ (run : List Text → Option Text) (real : Text → Text → Text) where
  -- the short commit of a detached HEAD
  unfoldable short_head : Text → Option Text
  short_head cwd = elim (run (git cwd (codes "rev-parse" ∷ codes "--short" ∷ codes "HEAD" ∷ []))) [
    | none ↦ none
    | some out ↦ stripped out
  ]

  -- the branch, or the commit where there is none
  unfoldable branch_of : Text → Option Text
  unfolding stripped short_head
  branch_of cwd = elim (run (git cwd (codes "branch" ∷ codes "--show-current" ∷ []))) [
    | none ↦ none
    | some out ↦ elim (stripped out) [ none ↦ short_head cwd | some b ↦ some b ]
  ]

  -- `len(dirs) == 2 and dirs[0] != dirs[1]`
  unfoldable two_differ : List Text → Bool
  two_differ (x ∷ y ∷ []) = not (x == y)
  two_differ ds = false

  unfoldable is_linked : Text → Bool
  unfolding words two_differ
  is_linked cwd =
      elim (run (git cwd (codes "rev-parse" ∷ codes "--git-dir" ∷ codes "--git-common-dir" ∷ []))) [
        | none ↦ false
        | some out ↦ two_differ (words [] out)
      ]

  unfoldable pub git_info : Text → Option Text × Bool
  unfolding branch_of is_linked
  git_info cwd = (branch_of cwd, is_linked cwd)

  -- the name of the repository and of the worktree, from the two directories
  unfoldable pub identity_of : Text → Text → GitId
  unfolding or_missing
  identity_of common gitdir = (
    or_missing (basename (dirname common)),
    if gitdir == common then none else some (basename gitdir),
  )

  unfoldable pub git_identity : Text → GitId
  unfolding identity_of
  git_identity cwd = elim (run (git cwd (codes "rev-parse" ∷ codes "--git-common-dir" ∷ []))) [
    | none ↦ (none, none)
    | some common ↦ elim (run (git cwd (codes "rev-parse" ∷ codes "--git-dir" ∷ []))) [
      | none ↦ (none, none)
      | some gitdir ↦ identity_of (real cwd (strip common)) (real cwd (strip gitdir))
    ]
  ]
