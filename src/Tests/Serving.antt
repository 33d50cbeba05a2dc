-- ===== src/Tests/Serving.antt =====
-- Requests to the server, as its clients send them.
use muster_chat.Base.{inl, inr, ◌≡◌, refl, [], some, Option, ok, Text, codes, ◌==◌, split, arith}
use muster_chat.Valkey.Memory.{memory, plain_json}
use muster_chat.Valkey.Memory.Lawful.{memory_laws}
use muster_chat.Identity.{parse_agent_header}
use muster_chat.Auth.{Identity, Doc, cached, Outcome, unreachable, resolve, static_entry}
use muster_chat.Ops.Types.{body_arg, Args, status_code, arg, text, truthy, subject_arg}
use muster_chat.Ops.Chat.Delivery.{Delivers}
use muster_chat.Ops.Dispatch.{dispatch, chat_reply}
use muster_chat.App.{
  dict, call, Request, Times, Server, status, answer, authenticate, caller, run_body, run_call,
  on_world, rpc, respond, handle, header, op_name,
}
use muster_chat.App.Stamped.{Answered, handle_sound}
use muster_chat.App.Chats.{stamp, Requested, handle-Delivers}
use muster_chat.App.Refused.{IsBarred, handle-Undelivered, handle-IsBarred}
use muster_chat.Auth.Resolved.{Rests}
use muster_chat.Ops.Refused.{Undelivered}
use muster_chat.Tests.Samples.{settings, both, hello}
use muster_chat.Tests.Chats.{told_lab, after_hello, hello_run, both_issued}

abbrev pub same : Text → Text
same t = t

abbrev pub shown : Doc → Text
shown d = []

abbrev pub asked : Text → Text → Text → Outcome
asked url name key = unreachable

abbrev pub at_eight : Times
at_eight = record { asked = 8; settled = 8; wall = 8 }

abbrev pub said_hello : Request
said_hello = record {
  api_key = some (codes "s3");
  agent = some (codes "desk/cc/web/1");
  body = call (text (codes "chat")) (dict hello);
}

abbrev pub before : Server memory
before = record { world = both; cache = [] }

abbrev pub after : Server memory
after = record { world = after_hello; cache = [] }

hello_handled :
    handle memory plain_json same shown asked settings at_eight said_hello before
    ≡ (answer (chat_reply told_lab), after)
unfolding handle rpc caller authenticate resolve static_entry ◌==◌ parse_agent_header split run_body
    run_call on_world dispatch respond header op_name
hello_handled = rw hello_run refl

handle_sound_example :
    Answered memory plain_json same shown asked settings at_eight said_hello before
      (chat_reply told_lab)
      after
handle_sound_example =
    handle_sound memory plain_json same shown asked settings at_eight said_hello before after
      (chat_reply told_lab) hello_handled

handle-Delivers_example :
    (ident : Identity) × (args : Args) × Requested memory memory_laws plain_json same shown asked
      settings
      (codes "chat")
      at_eight
      said_hello
      before
      ident
      args
    × (body : Text) × (subject : Option Text) × (body_arg {Meta = Text} (arg (codes "body") args)
        ≡ ok body)
    × (subject_arg {Meta = Text} (arg (codes "subject") args) ≡ ok subject)
    × Delivers memory memory_laws plain_json settings 8
        (stamp ident.user_id (header said_hello.agent))
        body
        subject
        (truthy (arg (codes "important") args))
        both
        told_lab
        after_hello
handle-Delivers_example =
    handle-Delivers memory memory_laws plain_json same shown asked settings at_eight said_hello
      before after told_lab (omega arith) both_issued hello_handled

-- a request for an operation that is not there
abbrev odd : Request
odd = record said_hello { body = call (text (codes "shout")) (dict hello) }

odd_status : status (handle memory plain_json same shown asked settings at_eight odd before).0 ≡ 400
unfolding handle rpc caller authenticate resolve static_entry ◌==◌ parse_agent_header split run_body
    run_call on_world dispatch respond header op_name status status_code
odd_status = refl

handle-Undelivered_example :
    Undelivered memory memory_laws plain_json both
      (handle memory plain_json same shown asked settings at_eight odd before).1.world
handle-Undelivered_example =
    handle-Undelivered memory memory_laws plain_json same shown asked settings at_eight odd before
      (λ e. absurd (omega (arith, odd_status, e))) (λ e. absurd (omega (arith, odd_status, e)))

abbrev unknown : Request
unknown = record said_hello { api_key = some (codes "s4") }

none_vouches :
    (ident : Identity)
    → ¬ Rests same shown asked settings at_eight.asked (header unknown.api_key) before.cache ident
unfolding static_entry cached header ◌==◌
none_vouches ident (inl (e, q, _)) = ground arith
none_vouches ident (inr (inl (c, q, _, _))) = ground arith
none_vouches ident (inr (inr (url, code, d, q, _, _, _, _))) = ground arith

handle-IsBarred_example :
    IsBarred (status (handle memory plain_json same shown asked settings at_eight unknown before).0)
    × ((handle memory plain_json same shown asked settings at_eight unknown before).1.world ≡ both)
handle-IsBarred_example =
    handle-IsBarred memory memory_laws plain_json same shown asked settings at_eight unknown before
      (λ ident named. none_vouches ident)
