-- ===== src/Lib.antt =====
-- muster-chat: agents of several users, on several hosts, that find each other and exchange messages
-- through one server. The server (server/muster_api) keeps everything in Valkey: a directory of the
-- agents, who is online, an inbox for each agent, and counters for the rates. A client
-- (plugins/muster/mcp) derives the address of its agent, sends requests, and reads a stream of
-- events.
--
-- The parts, and the modules that model them:
-- - Identity (server/muster_api/identity.py): `Address`, `parse_agent_header`, `matches`, `visible`.
-- - Naming (plugins/muster/mcp/naming.py): `_seg` is `seg`, `derive_project`, `derive_address`.
-- - Valkey: the commands that the server sends, as a record of functions on a database, and their
--   documented behaviour, as a record of laws. Both are parameters of everything below;
--   Valkey.Memory is a server in memory, and Valkey.Memory.Lawful shows that it has the laws.
-- - Store (server/muster_api/store.py): Store.Keys the names of the keys, Store.Agents
--   `register_agent` and `list_agents`, Store.Presence `touch_presence` and `clear_presence`,
--   Store.Inbox `append_message`, `fetch_unread` and `unread_count`, Store.Envelope `envelope`,
--   Store.Rate `rate_check`, Store.Deliver `publish_deliver`.
-- - Config (server/muster_api/config.py): the record `Config` of a server, whose numbers are
--   naturals; Config.Load `load`, whose numbers are integers, where what `json.loads` makes of the
--   static keys is a parameter; Config.Loaded what it reads.
-- - Auth (server/muster_api/auth.py): `Identity`, `_dig`, and `Authenticator.resolve` as a function
--   of its cache. The digest of a key, the request to the resolver, and the text that Python gives a
--   list or a dictionary are parameters.
-- - Reaper (server/muster_api/reaper.py): `reap_once`.
-- - Stream (server/muster_api/stream.py): the opening, a ping and the end of `gen` as functions of
--   the database; Stream.Session the steps of one stream, with what is published to its channel and
--   what it has written, about which Stream.Session.Heard and Stream.Session.Broken are;
--   Stream.Ownership the steps of all the connections of one agent, in any order;
--   Stream.Foreign what neither touches.
-- - Sse: `_sse` of server/muster_api/stream.py, and `parse_sse` of plugins/muster/mcp/httpbus.py,
--   which reads what the server writes; the JSON of an event is a dictionary, and a parameter.
--   Sse.Lines is about the characters at which a line may end.
-- - Relay (plugins/muster/mcp/muster_channel.py): `relay` and `_render_deliver`. The identifier of a
--   message is a text, and a push that fails is a push all the same. An `error` event ends a
--   connection, of which the loop reads nothing more.
-- - Ops (server/muster_api/ops.py): Ops.Types the arguments, `OpError` and `_public`; Ops.Checks
--   `_visible_agents`, `_resolve_reference`, `_check_rate`; Ops.Chat `op_chat` and `op_fetch`,
--   Ops.Roster `op_roster`, Ops.Announce `op_announce`, whose recipients are the matter of
--   Ops.Announce.Reached, Ops.Dispatch `dispatch`; Ops.Refused what a request that ends in an error
--   has not done, Ops.Mail what a request brings to an inbox.
-- - App (server/muster_api/app.py): `caller`, `rpc` and the exception handlers, as one function from a
--   request and the state of the server to a response and the state afterwards. App.Stamped is about
--   who a request runs for, App.Chats about an answered chat, App.Refused about an error, App.Mail
--   about what a request brings to an inbox. App.Streams is `stream_route`, with the head of
--   `stream_endpoint`.
-- - System: the running server in steps, which are its requests, the moves of the streams, the rounds
--   of the reaper, and keys that run out of time. System.Cursors is about the cursors, System.Mail
--   about the inboxes.
-- - Wire: from a stream to its client: the dictionaries of the events that op_chat, op_announce and
--   `gen` send, the text of a response, and what `stream` of plugins/muster/mcp/httpbus.py yields,
--   whose lines are those of `splitlines`;
--   Wire.Pushed and Wire.Heard are about what the client then pushes.
-- - Bus (plugins/muster/mcp/httpbus.py): `MusterClient.rpc` and `BusError`; Bus.Answers what the server
--   of App sends back to it.
-- - Channel (plugins/muster/mcp/muster_channel.py): `_is_self`, `_age`, `_fmt_agent`, `_fmt_error`,
--   `_mail_line`; Channel.Roster `_fmt_roster`; Channel.Tools `call_tool` and `welcome`, for a
--   client that calls a server; Channel.Startup `resolve_address`, `build_meta` and the settings.
-- - GitMeta (plugins/muster/mcp/gitmeta.py): `git_info` and `git_identity`, of what git prints, which
--   is a parameter.
-- - Store.Inbox.Drain is about fetches one after the other, Store.Inbox.Races about two that overlap,
--   Store.Inbox.Arriving about one in whose middle a message arrives; Store.Rate.Window is about many
--   checks in one window.
--
-- How the code is modelled. A `str` is the list of its code points. A handler is a function of the
-- database and of the list of the events published so far, and ends in an answer or in a failure;
-- what it wrote before a failure stays written. `raised` is an `OpError`, which keeps its code and
-- the fields of its payload but not the prose; `crashed` is an exception that nothing catches. The
-- clock is an argument, read once in each operation. Arguments of a request are scalars. The server
-- runs with settings of which no number is negative. `int` reads ASCII digits with
-- a sign, underscores and white space.
-- The client library refuses a COUNT below 1. The JSON of the two blobs in an agent's hash is a
-- parameter with the round trip as its law. The lists in a document of the resolver hold texts, and
-- its numbers are integers.
--
-- What lies between the two sides is the identity: the headers of the client arrive as they are, so
-- that they are ASCII and have no space at an end, and so does the body of a request. The two
-- commands by which an inbox is read, GET and XRANGE, see one state; what comes between
-- the read and the SET of the cursor is the matter of Store.Inbox.Races and Store.Inbox.Arriving.
--
-- Every loop of the code that is modelled goes over a list. The digits of a number n are written
-- with the fuel n + 1, which is enough: `int` reads the number back.
--
-- The modules of Tests are runs of the properties on the server in memory.
--
-- Not modelled: the metrics, the routes of health and metrics, the lifespan of the server, the
-- subscription library (when it hands over a message, and when a disconnect is seen, is the choice of
-- the steps), the http library of the client, the schemas of the tools, the instructions
-- and the main loop of the channel, and the second client (plugins/muster/opencode), which is in
-- another language. But for fetches, requests that interleave between their commands are not
-- modelled either: a handler runs in one piece.
mod Base
pub mod Identity
pub mod Naming
pub mod Valkey
pub mod Store
pub mod Config
pub mod Auth
pub mod Ops
pub mod Reaper
pub mod Stream
pub mod Sse
pub mod Relay
pub mod App
pub mod Bus
pub mod Channel
pub mod System
pub mod Wire
pub mod GitMeta
pub mod Tests
