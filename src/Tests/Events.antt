-- ===== src/Tests/Events.antt =====
-- A stream with an event, a ping, and an error, on a JSON of two documents.
use muster_chat.Base.{
  ◌≡◌, refl, Bool, true, false, List, [], ◌∷◌, none, some, codes, split, strip, Lacks, All, map,
  arith, ◌==◌, if◌then◌else◌,
}
use muster_chat.Sse.{EventJson, Sent, event, comment, written, parse_sse}
use muster_chat.Sse.RoundTrip.{IsWritable, IsSendable, received, parse_sse-written}

abbrev small : EventJson
small = record {
  Data = Bool;
  dumps = λ b. if b then codes "{}" else codes "[]";
  loads = λ t. if t == codes "{}" then some true else if t == codes "[]" then some false else none;
}

read_back : (b : Bool) → small.loads (small.dumps b) ≡ some b
unfolding ◌==◌
read_back true = refl
read_back false = refl

in_a_line : (b : Bool) → Lacks b'\n' (small.dumps b)
in_a_line true = ((λ e. ground arith), ((λ e. ground arith), tt))
in_a_line false = ((λ e. ground arith), ((λ e. ground arith), tt))

trimmed : (b : Bool) → strip (small.dumps b) ≡ small.dumps b
unfolding strip
trimmed true = refl
trimmed false = refl

documents : (b : Bool) → IsWritable small b
documents b = record { read_back = read_back b; one_line = in_a_line b; no_ends = trimmed b }

abbrev sent : List (Sent Bool)
sent = event (codes "ab") true ∷ comment ∷ event (codes "c") false ∷ []

sent-IsSendable : All (IsSendable small) sent
unfolding strip
sent-IsSendable = (
  (((λ e. ground arith), ((λ e. ground arith), ((λ e. ground arith), tt)), refl), documents true),
  (tt, ((((λ e. ground arith), ((λ e. ground arith), tt), refl), documents false), tt)),
)

parse_sse-written_example :
    parse_sse small (split b'\n' (written small sent)) ≡ map (received small) sent
parse_sse-written_example = parse_sse-written small sent sent-IsSendable
