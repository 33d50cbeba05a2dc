-- ===== src/Tests/Broadcasts.antt =====
-- Announcements, rosters and references.
use muster_chat.Base.{
  ◌+◌, ◌≡◌, ◌⊎◌, refl, true, [], ◌∷◌, ok, Text, codes, ◌==◌, length, here, there,
}
use muster_chat.Valkey.Memory.{memory, plain_json}
use muster_chat.Identity.{address_text, visible}
use muster_chat.Base.{lookup, decimal, int_of_text, strip, utf8_len}
use muster_chat.Store.Agents.{
  Row, list_agents, sorted, register_agent, text_leb, row_at, row_of, agent_fields, rows, item,
  item_or, int_item,
}
use muster_chat.Store.Keys.{agents_key, agent_key, presence_key, rate_key}
use muster_chat.Store.Presence.{touch_presence}
use muster_chat.Store.Rate.{rate_check, count_one, verdict}
use muster_chat.Store.Deliver.{World, publish_deliver}
use muster_chat.Ops.Types.{
  encoded, body_arg, arg, is_text, truthy, public_row, text_arg, subject_arg,
}
use muster_chat.Ops.Checks.{visible_agents, sees, seen, size, check_size, check_rate}
use muster_chat.Ops.Checks.Resolve.{Unknown, Unique, Several, resolve_reference-Refers}
use muster_chat.Ops.Roster.{
  op_roster, RosterReply, passes, all_statuses, roster_reply, status_arg, group_filter, is_hidden,
  count_hidden, keeps_field, keeps_group,
}
use muster_chat.Ops.Roster.Rows.{IsFiltered, op_roster-rows}
use muster_chat.Ops.Roster.Counts.{total, own_dropped, roster_accounts}
use muster_chat.Ops.Announce.{op_announce, is_eligible, in_scope, scope_of, broadcast, publish_all}
use muster_chat.Ops.Announce.Recipients.{Announced, op_announce_sound}
use muster_chat.Ops.Announce.Reached.{Reached, op_announce-Reached}
use muster_chat.Tests.Samples.{settings, ann, desk, both, shout, lab_row, desk_row, pair, both_seen}

resolve_reference-Refers_example :
    Unknown (codes "lab") pair ⊎ (Unique (codes "lab") pair ⊎ Several (codes "lab") pair)
resolve_reference-Refers_example = resolve_reference-Refers (codes "lab") pair

abbrev after_shout : World memory
after_shout = (op_announce memory plain_json settings ann desk shout both).1

shout_run : op_announce memory plain_json settings ann desk shout both ≡ (ok 1, after_shout)
unfolding op_announce text_arg body_arg encoded subject_arg arg truthy check_size size utf8_len
    scope_of check_rate rate_check count_one verdict rate_key visible_agents list_agents sorted
    touch_presence register_agent agents_key agent_key presence_key ◌==◌ text_leb address_text
    row_at row_of agent_fields lookup decimal int_of_text strip visible sees seen rows item item_or
    int_item broadcast publish_all publish_deliver is_eligible in_scope is_text
shout_run = refl

op_announce_sound_example : Announced memory plain_json settings ann desk shout both 1 after_shout
op_announce_sound_example =
    op_announce_sound memory plain_json settings ann desk shout both 1 after_shout shout_run

op_announce-Reached_example : Reached memory plain_json settings ann desk shout both 1 after_shout
op_announce-Reached_example =
    op_announce-Reached memory plain_json settings ann desk shout both 1 after_shout shout_run

roster_accounts_example :
    length (roster_reply (codes "offline") (address_text desk) pair).agents
      + total (roster_reply (codes "offline") (address_text desk) pair).hidden
      + length (own_dropped (codes "offline") (address_text desk) pair)
    ≡ 2
roster_accounts_example = roster_accounts (codes "offline") (address_text desk) pair

abbrev listed : RosterReply Text
listed = record { agents = public_row desk_row ∷ public_row lab_row ∷ []; hidden = [] }

roster_run : op_roster memory plain_json ann desk [] both ≡ ok listed
unfolding op_roster group_filter status_arg arg truthy roster_reply passes keeps_field keeps_group
    count_hidden ◌==◌ is_hidden
roster_run = rw both_seen refl

op_roster-rows_example :
    (a : Row Text) × (status : Text) × (public_row a ≡ public_row lab_row)
    × (visible ann.user_id ann.groups a.user a.groups ≡ true)
    × (passes [] a ≡ true)
    × IsFiltered ann [] a
    × (status_arg {Meta = Text} (arg (codes "status") []) ≡ ok status)
    × ((status ≡ all_statuses) ⊎ (a.status ≡ status))
op_roster-rows_example =
    op_roster-rows memory plain_json ann desk [] both listed (public_row lab_row) roster_run
      (there (here refl))
