-- ===== src/Sse/RoundTrip.antt =====
-- The client reads what the server writes.
use muster_chat.Base.{
  ◌≡◌, ◌≢◌, refl, ap, ◌∙◌, List, [], ◌∷◌, ◌++◌, none, some, Text, codes, strip, split, Lacks, All,
  map, append_assoc, split-append, is_empty_of_ne, arith,
}
use muster_chat.Sse.{
  EventJson, Sent, event, comment, Parsed, named, ping, sse, written, dispatched, parse_lines,
  parse_sse,
}

strip-space : (t : Text) → strip (b' ' ∷ t) ≡ strip t
unfolding strip
strip-space t = refl

Lacks-event : (t : Text) → Lacks b'\n' t → Lacks b'\n' (codes "event: " ++ t)
Lacks-event t h = (
  (λ e. ground arith),
  (
    (λ e. ground arith),
    (
      (λ e. ground arith),
      ((λ e. ground arith), ((λ e. ground arith), ((λ e. ground arith), ((λ e. ground arith), h)))),
    ),
  ),
)

Lacks-data : (t : Text) → Lacks b'\n' t → Lacks b'\n' (codes "data: " ++ t)
Lacks-data t h = (
  (λ e. ground arith),
  (
    (λ e. ground arith),
    ((λ e. ground arith), ((λ e. ground arith), ((λ e. ground arith), ((λ e. ground arith), h)))),
  ),
)

-- A name that is written as it is read.
abbrev pub IsName : Text → Type 0
IsName name = (name ≢ []) × Lacks b'\n' name × (strip name ≡ name)

-- What is documented of `json.dumps` and `json.loads`: a text in one line with no space at its ends,
-- that is read back.
pub record IsWritable (json : EventJson) (d : json.Data) : Type 0 where
  pub read_back : json.loads (json.dumps d) ≡ some d
  pub one_line : Lacks b'\n' (json.dumps d)
  pub no_ends : strip (json.dumps d) ≡ json.dumps d

module _ (json : EventJson) where
  open json use {Data, dumps, loads}

  -- An event that is read as it is written.
  abbrev pub IsSendable : Sent Data → Type 0
  IsSendable (event name d) = IsName name × IsWritable json d
  IsSendable comment = Unit

  abbrev pub received : Sent Data → Parsed Data
  received (event name d) = named name (some d)
  received comment = ping

  event_lines :
      (name rest : Text) (d : Data)
      → Lacks b'\n' name
      → Lacks b'\n' (dumps d)
      → split b'\n' (sse json (event name d) ++ rest)
        ≡ (codes "event: " ++ name) ∷ (codes "data: " ++ dumps d) ∷ [] ∷ split b'\n' rest
  unfolding sse
  event_lines name rest d h one_line =
      let flat : sse json (event name d) ++ rest
          ≡ (codes "event: " ++ name)
            ++ b'\n' ∷ ((codes "data: " ++ dumps d) ++ b'\n' ∷ b'\n' ∷ rest) =
        ap (λ t. codes "event: " ++ t)
          (append_assoc name (b'\n' ∷ (codes "data: " ++ (dumps d ++ (b'\n' ∷ b'\n' ∷ [])))) rest
            ∙ ap (λ t. name ++ b'\n' ∷ (codes "data: " ++ t))
                (append_assoc (dumps d) (b'\n' ∷ b'\n' ∷ []) rest)) in
      ap (split b'\n') flat
      ∙ split-append b'\n' (codes "event: " ++ name) _ (Lacks-event name h)
      ∙ ap (λ ls. (codes "event: " ++ name) ∷ ls)
          (split-append b'\n' (codes "data: " ++ dumps d) (b'\n' ∷ rest)
              (Lacks-data (dumps d) one_line)
            ∙ ap (λ ls. (codes "data: " ++ dumps d) ∷ ls) (split-append b'\n' [] rest tt))

  comment_lines :
      (rest : Text)
      → split b'\n' (sse json comment ++ rest) ≡ codes ": ping" ∷ [] ∷ split b'\n' rest
  unfolding sse split
  comment_lines rest = refl

  parse_event :
      (name : Text) (d : Data) (lines : List Text)
      → IsName name
      → IsWritable json d
      → parse_lines json none []
          ((codes "event: " ++ name) ∷ (codes "data: " ++ dumps d) ∷ [] ∷ lines)
        ≡ named name (some d) ∷ parse_lines json none [] lines
  unfolding parse_lines dispatched
  parse_event name d lines (ne, _, trimmed) w = rw (
    strip-space name,
    trimmed,
    strip-space (dumps d),
    w.no_ends,
    is_empty_of_ne name ne,
    w.read_back,
  )

  parse_comment :
      (lines : List Text)
      → parse_lines json none [] (codes ": ping" ∷ [] ∷ lines)
        ≡ ping ∷ parse_lines json none [] lines
  unfolding parse_lines dispatched
  parse_comment lines = refl

  lines-received :
      (ss : List (Sent Data))
      → All IsSendable ss
      → parse_lines json none [] (split b'\n' (written json ss)) ≡ map received ss
  unfolding written
  lines-received [] h = unfold parse_lines dispatched split in refl
  lines-received (event name d ∷ ss) (((ne, lacks, trimmed), w), hs) =
      ap (parse_lines json none []) (event_lines name (written json ss) d lacks w.one_line)
      ∙ parse_event name d (split b'\n' (written json ss)) (ne, lacks, trimmed) w
      ∙ ap (λ es. named name (some d) ∷ es) (lines-received ss hs)
  lines-received (comment ∷ ss) (_, hs) =
      ap (parse_lines json none []) (comment_lines (written json ss))
      ∙ parse_comment (split b'\n' (written json ss))
      ∙ ap (λ es. ping ∷ es) (lines-received ss hs)

  -- The client reads from the lines of a stream the events and the pings that the server has
  -- written, each once and in order, if every event has a name with no line break and no space at
  -- its ends, and a dictionary that is written in such a line and read back.
  pub parse_sse-written :
      (ss : List (Sent Data))
      → All IsSendable ss
      → parse_sse json (split b'\n' (written json ss)) ≡ map received ss
  unfolding parse_sse
  parse_sse-written ss h = lines-received ss h
