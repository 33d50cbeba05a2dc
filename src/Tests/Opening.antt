-- ===== src/Tests/Opening.antt =====
-- A channel that starts, and the stream that it opens.
use muster_chat.Base.{
  ◌≡◌, refl, true, [], ◌∷◌, Option, none, ok, Text, Fields, codes, ◌==◌, lookup, split, arith,
}
use muster_chat.Valkey.Memory.{memory, plain_json}
use muster_chat.Valkey.Memory.Lawful.{memory_laws}
use muster_chat.Identity.{Address, address_text, parse_agent_header}
use muster_chat.Auth.{resolve, static_entry}
use muster_chat.Store.Keys.{inbox_key}
use muster_chat.Config.Load.{env_or}
use muster_chat.Stream.Session.{fresh_session, acts}
use muster_chat.Stream.Foreign.{inbox-IsForeign}
use muster_chat.App.{authenticate, caller, header}
use muster_chat.App.Stamped.{IsCaller}
use muster_chat.App.Streams.{Opened, stream_route, stream_route_sound, meta_of, meta_header}
use muster_chat.Bus.{muster_client, post_of}
use muster_chat.Bus.Answers.{request_of}
use muster_chat.Channel.{is_self}
use muster_chat.Channel.Startup.{client, client_admitted}
use muster_chat.Tests.Samples.{settings, ann, desk}
use muster_chat.Tests.Serving.{same, shown, asked, at_eight, said_hello, before}
use muster_chat.Tests.Streams.{told_twice}
use muster_chat.Tests.Clients.{answers, absolute}

abbrev with_key : Fields
with_key = (codes "MUSTER_API_KEY", codes "s3") ∷ []

client_admitted_example :
    (addr : Address) × ((caller memory plain_json same shown asked settings at_eight
        (request_of (
          post_of
            (client answers absolute with_key (codes "lab") (codes "/w/fix") 7)
            (codes "roster")
            []))
        before).0
      ≡ ok (ann, addr))
    × (addr.user ≡ codes "ann")
    × (is_self {Meta = Text}
          (client answers absolute with_key (codes "lab") (codes "/w/fix") 7).agent
          (address_text addr)
        ≡ ok true)
unfolding client muster_client env_or lookup ◌==◌ resolve static_entry
client_admitted_example =
    client_admitted answers absolute with_key (codes "lab") (codes "/w/fix") 7 memory plain_json
      same shown asked settings at_eight before ann (codes "roster") [] refl
      (λ e. ground arith, (λ e. ground arith, (λ e. ground arith, tt)))

abbrev no_data : Text → Option Text
no_data t = none

abbrev opened : Opened memory plain_json same shown asked settings
opened = record { ident = ann; addr = desk; meta = []; key = codes "s3" }

opens_desk :
    stream_route memory plain_json same shown asked settings no_data [] at_eight said_hello none
      before
    ≡ (ok opened, before)
unfolding stream_route caller authenticate split resolve static_entry header parse_agent_header ◌==◌
    meta_of meta_header
opens_desk = refl

stream_route_sound_example :
    IsCaller memory plain_json same shown asked settings at_eight said_hello [] ann desk
    × (memory.cell
          (acts memory plain_json settings desk
            (codes "c1")
            []
            told_twice
            (fresh_session ann, before.world.db)).1
          (inbox_key (codes "ann/lab/cc/web/2"))
        ≡ memory.cell before.world.db (inbox_key (codes "ann/lab/cc/web/2")))
stream_route_sound_example =
    stream_route_sound memory memory_laws plain_json same shown asked settings no_data [] at_eight
      said_hello none before before opened (codes "c1") told_twice
      (inbox_key (codes "ann/lab/cc/web/2")) opens_desk (inbox-IsForeign (address_text desk) _)
