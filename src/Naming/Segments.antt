-- ===== src/Naming/Segments.antt =====
-- The derived segments, and what the server makes of the header that the client sends.
use muster_chat.Base.{
  ℕ, ◌≤◌, ◌≡◌, ◌≢◌, Bool, true, false, [], ◌∷◌, ok, Text, Fields, All, Lacks, is_empty,
  ne_of_is_empty, strip, arith, Bool-cases, inl, inr,
}
use muster_chat.Identity.{slash, Address, parse_agent_header}
use muster_chat.Identity.Header.{IsSegment, parse_agent_header_complete}
use muster_chat.Naming.{
  GitId, sub_unprintable, seg, derive_project, host_of, pid_text, derive_address,
}

-- A visible ASCII character.
abbrev IsPrintable : ℕ → Type 0
IsPrintable c = (0x21 ≤ c) × (c ≤ 0x7e)

abbrev IsSafe : ℕ → Type 0
IsSafe c = IsPrintable c × (c ≢ slash)

sub_unprintable-IsSafe : (in_run : Bool) (s : Text) → All IsSafe (sub_unprintable in_run s)
unfolding sub_unprintable
sub_unprintable-IsSafe in_run [] = tt
sub_unprintable-IsSafe in_run (c ∷ s) =
    ground (arith, sub_unprintable-IsSafe true s, sub_unprintable-IsSafe false s)

safe_parts : (s : Text) → All IsSafe s → All IsPrintable s × Lacks slash s
safe_parts [] h = (tt, tt)
safe_parts (c ∷ s) ((p, q), h) = let (ps, qs) = safe_parts s h in ((p, ps), (q, qs))

-- A segment is not empty, holds no slash and is printable ASCII, whatever the value.
seg-IsSegment : (value : Text) → IsSegment (seg value) × All IsPrintable (seg value)
unfolding seg
seg-IsSegment value =
    let (p, l) = safe_parts _ (sub_unprintable-IsSafe false (strip value)) in
    elim (Bool-cases (is_empty (sub_unprintable false (strip value)))) [
      | inl e ↦ rw e (((omega arith, tt), λ e. ground arith), ((omega arith, omega arith), tt))
      | inr e ↦ rw e ((l, ne_of_is_empty _ e), p)
    ]

-- The address that the server stamps from the header that a client derives.
abbrev pub stamped : Text → Fields → Text → GitId → Text → Text → ℕ → Address
stamped user env runtime git_id cwd hostname pid = record {
  user = user;
  host = seg (host_of env hostname);
  runtime = seg runtime;
  project = seg (derive_project git_id cwd);
  session = seg (pid_text pid);
}

-- Every header that a client derives is accepted, and its segments are read back.
pub parse_agent_header-derive_address :
    (user : Text) (env : Fields) (runtime : Text) (git_id : GitId) (cwd hostname : Text) (pid : ℕ)
    → parse_agent_header user (derive_address env runtime git_id cwd hostname pid)
      ≡ ok (stamped user env runtime git_id cwd hostname pid)
parse_agent_header-derive_address user env runtime git_id cwd hostname pid =
    unfold derive_address in
    parse_agent_header_complete (stamped user env runtime git_id cwd hostname pid)
      ((seg-IsSegment _).0, ((seg-IsSegment _).0, ((seg-IsSegment _).0, ((seg-IsSegment _).0, tt))))
