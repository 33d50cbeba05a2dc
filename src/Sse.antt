-- ===== src/Sse.antt =====
-- The events of a stream as text: `_sse` and the ping of server/muster_api/stream.py, and `parse_sse`
-- of plugins/muster/mcp/httpbus.py. The JSON of an event is a parameter.
pub mod RoundTrip
pub mod Lines
use muster_chat.Base.{
  Bool, true, false, ◌&&◌, not, List, [], ◌∷◌, ◌++◌, Option, none, some, Text, codes, is_empty,
  starts_with, drop_prefix, strip, if◌then◌else◌,
}

-- The JSON of the dictionary of an event. `dumps` writes one line with no space at its ends.
pub record EventJson : Type 1 where
  pub Data : Type 0
  pub dumps : Data → Text
  pub loads : Text → Option Data

-- What a stream of the server is made of.
pub data Sent (Data : Type 0) : Type 0 where
  event : (name : Text) → Data → Sent Data
  comment : Sent Data

-- What `parse_sse` yields. A body that is not JSON gives an event with no fields.
pub data Parsed (Data : Type 0) : Type 0 where
  named : (name : Text) → Option Data → Parsed Data
  ping : Parsed Data

module _ (json : EventJson) where
  open json use {Data, dumps, loads}

  -- `_sse(event, data)`, and the ping
  unfoldable pub sse : Sent Data → Text
  sse (event name d) =
      codes "event: " ++ (name ++ (b'\n' ∷ (codes "data: " ++ (dumps d ++ (b'\n' ∷ b'\n' ∷ [])))))
  sse comment = codes ": ping" ++ (b'\n' ∷ b'\n' ∷ [])

  -- all that the server has written
  unfoldable pub written : List (Sent Data) → Text
  written [] = []
  written (s ∷ ss) = sse s ++ written ss

  joined_lines : List Text → Text
  joined_lines [] = []
  joined_lines (l ∷ []) = l
  joined_lines (l ∷ m ∷ ls) = l ++ (b'\n' ∷ joined_lines (m ∷ ls))

  -- what an empty line ends
  unfoldable pub dispatched : Option Text → List Text → List (Parsed Data)
  unfolding joined_lines
  dispatched none data' = []
  dispatched (some name) [] = []
  dispatched (some name) (l ∷ ls) =
      if is_empty name then [] else named name (loads (joined_lines (l ∷ ls))) ∷ []

  -- the loop over the lines, with the name and the data of the event that is being read
  unfoldable pub parse_lines : Option Text → List Text → List Text → List (Parsed Data)
  parse_lines name data' [] = []
  parse_lines name data' (line ∷ lines) =
      let ended = parse_lines none [] lines in
      let same = parse_lines name data' lines in
      let renamed = parse_lines (some (strip (drop_prefix (codes "event:") line))) data' lines in
      let more = parse_lines name (data' ++ strip (drop_prefix (codes "data:") line) ∷ []) lines in
      if is_empty line
      then dispatched name data' ++ ended
      else if starts_with line (codes ":")
      then ping ∷ same
      else if starts_with line (codes "event:")
      then renamed
      else if starts_with line (codes "data:")
      then more
      else same

  unfoldable pub parse_sse : List Text → List (Parsed Data)
  parse_sse lines = parse_lines none [] lines
