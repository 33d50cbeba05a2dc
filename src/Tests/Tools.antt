-- ===== src/Tests/Tools.antt =====
-- The tools of two agents of one user.
use mathlib.Core.List.{Nodup, Perm}
use muster_chat.Base.{
  ◌≤◌, ◌≡◌, ◌⊎◌, refl, ◌∙◌, [], All, ◌∷◌, none, some, List, Option, ok, err, false, pos, utf8_len,
  Text, codes, ◌==◌, split, not, select, arith,
}
use muster_chat.Valkey.Memory.{memory, plain_json}
use muster_chat.Valkey.Memory.Lawful.{memory_laws}
use muster_chat.Identity.{address_text, parse_agent_header, matches}
use muster_chat.Auth.{Identity, resolve, static_entry}
use muster_chat.Auth.Resolved.{Rests}
use muster_chat.Ops.Types.{
  encoded, body_arg, Args, PublicRow, null, bool, arg, text, truthy, text_arg, subject_arg,
}
use muster_chat.Ops.Chat.{reference, send_chat, op_chat}
use muster_chat.Ops.Chat.Accepted.{MayChat, sent_chat, op_chat_complete}
use muster_chat.Ops.Checks.{resolve_reference, found, size}
use muster_chat.Store.Keys.{agents_key, agent_key, presence_key, inbox_key, rate_key}
use muster_chat.Store.Agents.{register_agent}
use muster_chat.Store.Presence.{touch_presence}
use muster_chat.Store.Rate.{rate_check, count_one, verdict}
use muster_chat.Store.Inbox.{append_message}
use muster_chat.Store.Deliver.{publish_deliver}
use muster_chat.Ops.Dispatch.{Reply, dispatch, chat_reply}
use muster_chat.App.{
  Response, answer, server_error, status, authenticate, caller, run_body, run_call, on_world, rpc,
  respond, handle, header, op_name,
}
use muster_chat.App.Chats.{stamp}
use muster_chat.Bus
use muster_chat.Bus.{
  ErrorBody, Payload, reply, problem, BusFailure, bus_error, MusterClient, json_of, post_of,
}
use muster_chat.Bus.Answers.{body_of, sent_back, request_of, received-sent_back}
use muster_chat.Channel.Roster.{sections}
use muster_chat.Channel.Shown.{rows_in, IsGrouped, projects, sections_lem}
use muster_chat.Channel.Tools.{others, call_tool, chat_args, need, get_or, find, delivered_text}
use muster_chat.Channel.Tools.Itself.{half_of, IsAddressed, others_lem}
use muster_chat.Channel.Tools.Chatting.{one_mail, over, chat_tool-fetch_tool}
use muster_chat.Tests.Samples.{settings, ann, desk, lab, both, hello, pair, lab_row, both_seen}
use muster_chat.Tests.Chats.{told_lab, after_hello, both_issued}
use muster_chat.Tests.Requests.{lab_empty}
use muster_chat.Tests.Serving.{same, shown, asked, at_eight, before, after}

abbrev plain : Response Text → Text
plain r = codes "sorry"

received-sent_back_example :
    ((x : Reply Text) × (server_error ≡ answer x)
      × (Bus.received (sent_back plain server_error) ≡ ok (reply x)))
    ⊎ ((e : ErrorBody Text) × (400 ≤ status {Meta = Text} server_error)
        × (Bus.received (sent_back plain server_error) ≡ err (bus_error e))
        × (json_of (status {Meta = Text} server_error) (body_of plain server_error) ≡ problem e))
received-sent_back_example = received-sent_back plain server_error

abbrev row : Text → Text → PublicRow Text
row user project = record {
  addr = address_text (record {
    user = user;
    host = codes "h";
    runtime = codes "cc";
    project = project;
    session = codes "1";
  });
  user = user;
  host = codes "h";
  runtime = codes "cc";
  project = project;
  session = codes "1";
  status = codes "online";
  last_connect = pos 3;
  meta = [];
}

abbrev three : List (PublicRow Text)
three =
    row (codes "ann") (codes "web")
    ∷ row (codes "bob") (codes "api")
    ∷ row (codes "bob") (codes "web")
    ∷ []

sections_lem_example :
    Perm (rows_in (sections three)) three
    × IsGrouped (sections three)
    × Nodup (projects (sections three))
sections_lem_example = sections_lem three

All-IsAddressed : All IsAddressed three
unfolding address_text
All-IsAddressed = ((refl, omega arith), ((refl, omega arith), ((refl, omega arith), tt)))

others_lem_example :
    others (codes "h/cc/web/1") three
    ≡ ok (select (λ a. not (half_of a == codes "h/cc/web/1")) three)
others_lem_example = others_lem (codes "h/cc/web/1") three All-IsAddressed

-- only the agent of bob in the other project is left
others_example : others (codes "h/cc/web/1") three ≡ ok (row (codes "bob") (codes "api") ∷ [])
others_example = others_lem (codes "h/cc/web/1") three All-IsAddressed ∙ (unfold ◌==◌ in refl)

-- what the chat tool makes of `hello`
abbrev request : Args
request =
    (codes "to", text (codes "lab"))
    ∷ (codes "body", text (codes "hello"))
    ∷ (codes "subject", null)
    ∷ (codes "important", bool false)
    ∷ []

may_say :
    MayChat memory plain_json settings 8 ann desk request both (codes "hello") none pair lab_row
unfolding text_arg body_arg encoded subject_arg arg truthy reference resolve_reference found matches
    split ◌==◌ address_text rate_check count_one verdict rate_key size utf8_len touch_presence
    register_agent presence_key agent_key agents_key
may_say = record {
  has_body = refl;
  has_subject = refl;
  fits = omega arith;
  sees_agents = both_seen;
  resolves = refl;
  not_self = λ e. ground arith;
  in_rate = refl;
}

said_alike :
    sent_chat memory plain_json settings 8 ann desk request both (codes "hello") none lab_row
    ≡ (ok told_lab, after_hello)
unfolding send_chat append_message rate_check count_one verdict rate_key inbox_key touch_presence
    register_agent presence_key agent_key agents_key ◌==◌ address_text publish_deliver arg truthy
said_alike = refl

request_run :
    op_chat memory plain_json settings 8 ann desk request both ≡ (ok told_lab, after_hello)
request_run =
    op_chat_complete memory plain_json settings 8 ann desk request both (codes "hello") none pair
      lab_row may_say
    ∙ said_alike

abbrev desk_client : MusterClient
desk_client = record {
  url = codes "http://bus";
  api_key = codes "s3";
  agent = codes "desk/cc/web/1";
}

abbrev lab_client : MusterClient
lab_client = record { url = codes "http://bus"; api_key = codes "s3"; agent = codes "lab/cc/web/2" }

request_handled :
    handle memory plain_json same shown asked settings at_eight
      (request_of (post_of desk_client (codes "chat") request))
      before
    ≡ (answer (chat_reply told_lab), after)
unfolding handle rpc caller authenticate resolve static_entry ◌==◌ parse_agent_header split run_body
    run_call on_world dispatch respond header op_name request_of post_of
request_handled = rw request_run refl

chat_tool-fetch_tool_example :
    (from : Identity) × Rests same shown asked settings 8 (codes "s3") [] from
    × (body : Text) × (subject : Option Text) × (body_arg {Meta = Text} (arg (codes "body") request)
        ≡ ok body)
    × (subject_arg {Meta = Text} (arg (codes "subject") request) ≡ ok subject)
    × (call_tool
          (codes "http://bus")
          desk_client
          same
          8
          (over memory memory_laws plain_json same shown asked settings plain at_eight before)
          (codes "chat")
          (some hello)
        ≡ delivered_text told_lab)
    × (call_tool
          (codes "http://bus")
          lab_client
          same
          8
          (over memory memory_laws plain_json same shown asked settings plain at_eight after)
          (codes "fetch")
          (some [])
        ≡ one_mail 8
            (stamp from.user_id (codes "desk/cc/web/1"))
            body
            subject
            (truthy (arg (codes "important") request)))
chat_tool-fetch_tool_example =
    chat_tool-fetch_tool memory memory_laws plain_json same shown asked settings plain at_eight
      at_eight before after desk_client lab_client (some hello) request told_lab ann lab
      (codes "http://bus") same 8 (omega arith) both_issued
      (unfold chat_args need get_or find ◌==◌ truthy in refl) request_handled
      (unfold resolve static_entry ◌==◌ in refl) (unfold parse_agent_header split in refl)
      (unfold address_text in refl) lab_empty (omega arith)
