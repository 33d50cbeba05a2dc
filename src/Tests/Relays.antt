-- ===== src/Tests/Relays.antt =====
-- A relay that is sent one message twice, over two connections.
use muster_chat.Base.{◌≤◌, List, [], ◌∷◌, codes, arith, ◌==◌}
use muster_chat.Ops.Types.{text, arg, truthy}
use muster_chat.Relay.{StreamEvent, started, Happening, arrives, ends, relay, event_id, in_format}
use muster_chat.Relay.Bounds.{IsBounded, relay-IsBounded}
use muster_chat.Relay.Repeats.{Distinct, ids, count_ids, relay-Distinct}

abbrev mail : StreamEvent
mail = record {
  name = codes "deliver";
  fields = (codes "kind", text (codes "chat")) ∷ (codes "msg_id", text (codes "7")) ∷ [];
}

abbrev twice : List Happening
twice = arrives mail ∷ ends ∷ arrives mail ∷ []

few_ids : count_ids twice ≤ 256
unfolding ◌==◌ event_id arg truthy in_format
few_ids = omega arith

relay-Distinct_example : Distinct (ids (relay twice started).pushed)
relay-Distinct_example = relay-Distinct twice few_ids

started-IsBounded : IsBounded started
started-IsBounded = record { few = omega arith; least = omega arith; most = omega arith }

relay-IsBounded_example : IsBounded (relay twice started)
relay-IsBounded_example = relay-IsBounded twice started started-IsBounded
