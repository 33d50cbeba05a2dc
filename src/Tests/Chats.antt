-- ===== src/Tests/Chats.antt =====
-- A chat between two agents of one user.
use muster_chat.Base.{
  ◌≡◌, ◌≢◌, true, ◌∙◌, refl, [], ◌∷◌, none, ok, Text, codes, ◌==◌, split, utf8_len, arith,
}
use muster_chat.Valkey.Memory.{memory, plain_json}
use muster_chat.Valkey.Memory.Lawful.{memory_laws}
use muster_chat.Identity.{address_text, matches, visible}
use muster_chat.Store.Agents.{Row, online, register_agent}
use muster_chat.Store.Keys.{agents_key, agent_key, presence_key, inbox_key, cursor_key, rate_key}
use muster_chat.Store.Presence.{touch_presence}
use muster_chat.Store.Rate.{rate_check, count_one, verdict}
use muster_chat.Store.Inbox.{append_message}
use muster_chat.Store.Inbox.Fetch.{CursorIsIssued}
use muster_chat.Store.Deliver.{World, publish_deliver}
use muster_chat.Ops.Types.{encoded, body_arg, arg, truthy, text_arg, subject_arg}
use muster_chat.Ops.Checks.{resolve_reference, found, size}
use muster_chat.Ops.Chat.{ChatReply, reference, send_chat, op_chat}
use muster_chat.Ops.Chat.Accepted.{
  MayChat, Run, sent_chat, op_chat_complete, op_chat_sound, op_chat-visible,
}
use muster_chat.Tests.Samples.{settings, ann, desk, both, hello, lab_row, pair, both_seen}

abbrev pub told_lab : ChatReply
told_lab = record { msg_id = codes "1"; to = codes "ann/lab/cc/web/2"; status = online }

may_hello :
    MayChat memory plain_json settings 8 ann desk hello both (codes "hello") none pair lab_row
unfolding text_arg body_arg encoded subject_arg arg truthy reference resolve_reference found matches
    split ◌==◌ address_text rate_check count_one verdict rate_key size utf8_len touch_presence
    register_agent presence_key agent_key agents_key
may_hello = record {
  has_body = refl;
  has_subject = refl;
  fits = omega arith;
  sees_agents = both_seen;
  resolves = refl;
  not_self = λ e. ground arith;
  in_rate = refl;
}

abbrev pub after_hello : World memory
after_hello =
    (sent_chat memory plain_json settings 8 ann desk hello both (codes "hello") none lab_row).1

hello_sent :
    sent_chat memory plain_json settings 8 ann desk hello both (codes "hello") none lab_row
    ≡ (ok told_lab, after_hello)
unfolding send_chat append_message rate_check count_one verdict rate_key inbox_key touch_presence
    register_agent presence_key agent_key agents_key ◌==◌ address_text publish_deliver
hello_sent = refl

pub hello_run :
    op_chat memory plain_json settings 8 ann desk hello both ≡ (ok told_lab, after_hello)
hello_run =
    op_chat_complete memory plain_json settings 8 ann desk hello both (codes "hello") none pair
      lab_row may_hello
    ∙ hello_sent

op_chat_sound_example : Run memory plain_json settings 8 ann desk hello both told_lab after_hello
op_chat_sound_example =
    op_chat_sound memory plain_json settings 8 ann desk hello both told_lab after_hello hello_run

pub both_issued : (a : Text) → CursorIsIssued memory memory_laws a both.db
unfolding touch_presence register_agent presence_key agent_key agents_key cursor_key ◌==◌
both_issued a = tt

op_chat-visible_example :
    (target : Row Text) × (target.addr ≡ codes "ann/lab/cc/web/2")
    × (visible (codes "ann") (codes "ops" ∷ []) target.user target.groups ≡ true)
    × (matches (reference (arg (codes "to") hello)) target.addr ≡ true)
    × (target.addr ≢ address_text desk)
op_chat-visible_example =
    op_chat-visible memory plain_json settings 8 ann desk hello both told_lab after_hello hello_run
