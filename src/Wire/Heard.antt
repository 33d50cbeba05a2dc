-- ===== src/Wire/Heard.antt =====
-- From a channel of the server to the session of the agent.
use muster_chat.Base.{◌≤◌, ◌≡◌, sym, ap, ◌∙◌, List, ◌++◌, Option, Text, length, map, All}
use muster_chat.Base.Ends.{map-append}
use muster_chat.Valkey.{Valkey, Json}
use muster_chat.Identity.{Address}
use muster_chat.Auth.{Identity, AuthError}
use muster_chat.Config.{Config}
use muster_chat.Ops.Types.{Args}
use muster_chat.Stream.{Frame}
use muster_chat.Stream.Session.{Act, fresh_session, acts}
use muster_chat.Stream.Session.Heard.{heard_in, own_in, acts-delivered}
use muster_chat.Stream.Session.Told.{delivered}
use muster_chat.Sse.Lines.{IsPlainText}
use muster_chat.Sse.RoundTrip.{IsSendable}
use muster_chat.Stream.Session.Broken.{acts-EndsAtError}
use muster_chat.Relay.{read_of, started, arrives, relay}
use muster_chat.Relay.Repeats.{Distinct}
use muster_chat.Wire.{event_json, frame_sent, stream_text, stream}
use muster_chat.Wire.Pushed.{line_of, chat_ids, IsWhole, lines, pushed_lem}

module _ (dumps : Args → Text) (loads : Text → Option Args) (prose : AuthError → Text) where
  -- What the client pushes of all that a stream has written.
  abbrev pub pushed_of : List Frame → List Text
  pushed_of fs =
      lines
        (relay (map arrives (read_of (stream dumps loads (stream_text dumps loads prose fs))))
          started).pushed

  -- What a stream has written is read back, with line breaks at newlines only, and its chats are told
  -- apart.
  pub record IsPlain (fs : List Frame) : Type 0 where
    pub sendable : All (λ f. IsSendable (event_json dumps loads) (frame_sent prose f)) fs
    pub unbroken : IsPlainText (stream_text dumps loads prose fs)
    pub whole : All IsWhole (delivered fs)
    pub apart : Distinct (chat_ids (delivered fs))

  module _ (v : Valkey) (json : Json) (cfg : Config) (addr : Address) (connection_id : Text)
      (meta : json.Meta) where
    open v use {Db}

    -- Where what a stream has written is read back as JSON and breaks its lines at newlines only,
    -- and its chats have an envelope and identifiers of their own: whatever the steps of the stream
    -- and whatever is published to it, the lines that its client pushes, and behind them the lines
    -- of the events that wait, are the line of the one count that the stream made, if there was
    -- something to be fetched when it counted, and behind it those of all that was published while
    -- it was subscribed, each once and in order.
    pub acts-pushed :
        (xs : List Act) (ident : Identity) (db : Db)
        → IsPlain (acts v json cfg addr connection_id meta xs (fresh_session ident, db)).0.written
        → let s = (acts v json cfg addr connection_id meta xs (fresh_session ident, db)).0 in
          (length (own_in v json cfg addr connection_id meta xs (fresh_session ident, db)) ≤ 1)
          × (pushed_of s.written ++ map line_of s.queue
              ≡ map line_of (
                  own_in v json cfg addr connection_id meta xs (fresh_session ident, db)
                  ++ heard_in v json cfg addr connection_id meta xs (fresh_session ident, db)))
    acts-pushed xs ident db plain =
        let s = (acts v json cfg addr connection_id meta xs (fresh_session ident, db)).0 in
        let (few, all) = acts-delivered v json cfg addr connection_id meta xs ident db in
        (
          few,
          ap (λ l. l ++ map line_of s.queue)
                (pushed_lem dumps loads prose s.written plain.sendable plain.unbroken
                  (acts-EndsAtError v json cfg addr connection_id meta xs ident db) plain.whole
                  plain.apart)
              ∙ sym (map-append line_of (delivered s.written) s.queue)
              ∙ ap (map line_of) all,
        )
