-- ===== src/Naming.antt =====
-- plugins/muster/mcp/naming.py: the part of an agent's address that its client derives. The proofs
-- are in the child.
pub mod Segments
use muster_chat.Base.{
  ℕ, Bool, true, false, ◌||◌, List, [], ◌∷◌, ◌++◌, Option, none, some, Text, Fields, codes, eqb,
  ltb, is_empty, join, split, strip, last?, lookup, decimal, if◌then◌else◌,
}
use mathlib.Core.List.{reverse}
use muster_chat.Identity.{slash}

-- a character that `[^\x21-\x7e]` matches
abbrev is_unprintable : ℕ → Bool
is_unprintable c = ltb c 0x21 || ltb 0x7e c

-- `re.sub(r"[^\x21-\x7e]+|/", "-", s)`; the flag says that the last character belongs to a run that
-- is replaced already
unfoldable pub sub_unprintable : Bool → Text → Text
sub_unprintable in_run [] = []
sub_unprintable in_run (c ∷ s) =
    let inside = sub_unprintable true s in
    let outside = sub_unprintable false s in
    if is_unprintable c
    then (if in_run then inside else b'-' ∷ inside)
    else if eqb c slash
    then b'-' ∷ outside
    else c ∷ outside

-- `_seg(value)`, with its default fallback
unfoldable pub seg : Text → Text
unfolding sub_unprintable
seg value = let s = sub_unprintable false (strip value) in if is_empty s then b'-' ∷ [] else s

-- `s.rstrip("/")`
unfoldable pub drop_slashes : Text → Text
drop_slashes [] = []
drop_slashes (c ∷ s) = let rest = drop_slashes s in if eqb c slash then rest else c ∷ s

abbrev pub rstrip_slash : Text → Text
rstrip_slash s = reverse (drop_slashes (reverse s))

-- `s.rsplit("/", 1)[-1]`: the part behind the last slash
last_part : List Text → Text
last_part parts = elim (last? parts) [ none ↦ [] | some p ↦ p ]

abbrev cwd_project : Text → Text
cwd_project cwd =
    let base = last_part (split slash (rstrip_slash cwd)) in
    if is_empty base then b'-' ∷ [] else base

-- `(repo, worktree)` of `git_identity`: `none` outside a repository and for the main checkout
abbrev pub GitId : Type 0
GitId = Option Text × Option Text

-- `x or ""`
abbrev or_empty : Option Text → Text
or_empty none = []
or_empty (some t) = t

unfoldable pub derive_project : GitId → Text → Text
unfolding drop_slashes last_part
derive_project (repo, worktree) cwd =
    if is_empty (or_empty repo)
    then (if is_empty cwd then b'-' ∷ [] else cwd_project cwd)
    else if is_empty (or_empty worktree)
    then or_empty repo
    else or_empty repo ++ (b'~' ∷ or_empty worktree)

-- `env.get("MUSTER_HOST") or hostname`
abbrev host_of : Fields → Text → Text
host_of env hostname =
    let override = or_empty (lookup (codes "MUSTER_HOST") env) in
    if is_empty override then hostname else override

-- `str(pid or "")`
abbrev pid_text : ℕ → Text
pid_text pid = if eqb pid 0 then [] else decimal pid

-- the four segments of the header
abbrev derived : Fields → Text → GitId → Text → Text → ℕ → List Text
derived env runtime git_id cwd hostname pid =
    seg (host_of env hostname)
    ∷ seg runtime
    ∷ seg (derive_project git_id cwd)
    ∷ seg (pid_text pid)
    ∷ []

unfoldable pub derive_address : Fields → Text → GitId → Text → Text → ℕ → Text
unfolding seg derive_project
derive_address env runtime git_id cwd hostname pid =
    join (slash ∷ []) (derived env runtime git_id cwd hostname pid)
