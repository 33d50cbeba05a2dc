-- ===== src/Channel/Tools.antt =====
-- `_call_tool` and `welcome`: the requests that a tool makes, and the text that it answers with. What
-- comes back for a request is a parameter.
pub mod Chatting
pub mod Itself
use muster_chat.Base.{
  ℕ, Bool, true, false, not, List, [], ◌∷◌, ◌++◌, Option, none, some, Result, ok, err, ◌>>=◌, pos,
  Text, codes, ◌==◌, decimal, join, length, map, select, if◌then◌else◌,
}
use muster_chat.Store.Agents.{online}
use muster_chat.Ops.Types.{Value, null, bool, int, text, Args, arg, truthy, PublicRow}
use muster_chat.Ops.Chat.{ChatReply, FetchedMessage}
use muster_chat.Ops.Roster.{RosterReply}
use muster_chat.Ops.Dispatch.{Reply, chat_reply, fetch_reply, roster_reply, announce_reply}
use muster_chat.Relay.{in_format}
use muster_chat.Bus.{
  Payload, reply, problem, other, Came, BusFailure, bus_error, exception, MusterClient, Post, rpc,
}
use muster_chat.Channel.{is_self, fmt_error, mail_line}
use muster_chat.Channel.Roster.{fmt_roster}

-- the value under a key, if there is one
unfoldable pub find : Text → Args → Option Value
find k [] = none
find k ((j, v) ∷ args) = let rest = find k args in if j == k then some v else rest

-- `x or {}`
abbrev or_none : Option Args → Args
or_none none = []
or_none (some args) = args

module _ {Meta : Type 0} where
  abbrev raises : {A : Type 0} → Text → Result (BusFailure Meta) A
  raises name = err (exception name)

  -- `args[k]`
  unfoldable pub need : Text → Option Args → Result (BusFailure Meta) Value
  unfolding find
  need k none = raises (codes "TypeError")
  need k (some args) = elim (find k args) [ none ↦ raises (codes "KeyError") | some v ↦ ok v ]

  -- `args.get(k, default)`
  unfoldable pub get_or : Text → Value → Option Args → Result (BusFailure Meta) Value
  unfolding find
  get_or k default none = raises (codes "AttributeError")
  get_or k default (some args) = elim (find k args) [ none ↦ ok default | some v ↦ ok v ]

  -- `res["agents"]`, and the like: a dictionary of another shape has no such key
  unfoldable pub roster_of : Payload Meta → Result (BusFailure Meta) (RosterReply Meta)
  roster_of (reply (roster_reply r)) = ok r
  roster_of (reply r) = raises (codes "KeyError")
  roster_of (problem e) = raises (codes "KeyError")
  roster_of other = raises (codes "TypeError")

  unfoldable pub chat_of : Payload Meta → Result (BusFailure Meta) ChatReply
  chat_of (reply (chat_reply r)) = ok r
  chat_of (reply r) = raises (codes "KeyError")
  chat_of (problem e) = raises (codes "KeyError")
  chat_of other = raises (codes "TypeError")

  unfoldable pub messages_of : Payload Meta → Result (BusFailure Meta) (List FetchedMessage)
  messages_of (reply (fetch_reply ms)) = ok ms
  messages_of (reply r) = raises (codes "KeyError")
  messages_of (problem e) = raises (codes "KeyError")
  messages_of other = raises (codes "TypeError")

  unfoldable pub recipients_of : Payload Meta → Result (BusFailure Meta) ℕ
  recipients_of (reply (announce_reply n)) = ok n
  recipients_of (reply r) = raises (codes "KeyError")
  recipients_of (problem e) = raises (codes "KeyError")
  recipients_of other = raises (codes "TypeError")

  -- the arguments of the request of a chat
  unfoldable pub chat_args : Option Args → Result (BusFailure Meta) Args
  chat_args args = do
    to ← need (codes "to") args
    body ← need (codes "body") args
    subject ← get_or (codes "subject") null args
    important ← get_or (codes "important") null args
    ok (
        (codes "to", to)
        ∷ (codes "body", body)
        ∷ (codes "subject", subject)
        ∷ (codes "important", bool (truthy important))
        ∷ [])

  -- `[a for a in agents if not _is_self(a)]`
  unfoldable pub others :
      Text → List (PublicRow Meta) → Result (BusFailure Meta) (List (PublicRow Meta))
  others agent [] = ok []
  others agent (a ∷ agents) = do
    mine ← is_self agent a.addr
    rest ← others agent agents
    ok (if mine then rest else a ∷ rest)

-- `filters.get("status") or "online"`, where the filters are true values
unfoldable pub status_text : Args → Text
status_text filters =
    if truthy (arg (codes "status") filters)
    then in_format (arg (codes "status") filters)
    else online

unfoldable pub fetched_text : List FetchedMessage → Text
fetched_text [] = codes "No unread messages."
fetched_text (m ∷ ms) =
    codes "Unread messages (now marked read):"
    ++ (b'\n' ∷ join (b'\n' ∷ []) (map mail_line (m ∷ ms)))

unfoldable pub delivered_text : ChatReply → Text
delivered_text r =
    codes "Delivered to "
    ++ (r.to ++ (codes " (" ++ (r.status ++ (codes ", msg " ++ (r.msg_id ++ codes ").")))))

unfoldable pub announced_text : ℕ → Text
announced_text n = codes "Announced to " ++ (decimal n ++ codes " online agent(s).")

module _ {Meta : Type 0} (c : MusterClient) (branch : Meta → Text) (now : ℕ)
    (send : Post → Came Meta) where
  unfoldable pub roster_tool : Option Args → Result (BusFailure Meta) Text
  roster_tool args = do
    let filters = select (λ (k, v). truthy v) (or_none args)
    res ← rpc c send (codes "roster") filters
    r ← roster_of res
    agents ← others c.agent r.agents
    ok (fmt_roster c.agent branch now agents r.hidden (status_text filters))

  unfoldable pub chat_tool : Option Args → Result (BusFailure Meta) Text
  chat_tool args = do
    request ← chat_args args
    res ← rpc c send (codes "chat") request
    r ← chat_of res
    ok (delivered_text r)

  unfoldable pub fetch_tool : Option Args → Result (BusFailure Meta) Text
  fetch_tool args = do
    limit ← get_or (codes "limit") (int (pos 20)) args
    res ← rpc c send (codes "fetch") ((codes "limit", limit) ∷ [])
    ms ← messages_of res
    ok (fetched_text ms)

  unfoldable pub announce_tool : Option Args → Result (BusFailure Meta) Text
  announce_tool args = do
    scope ← need (codes "scope") args
    project ← need (codes "project") args
    body ← need (codes "body") args
    subject ← get_or (codes "subject") null args
    res ← rpc c send (codes "announce") (
        (codes "scope", scope)
        ∷ (codes "project", project)
        ∷ (codes "body", body)
        ∷ (codes "subject", subject)
        ∷ [])
    n ← recipients_of res
    ok (announced_text n)

  -- the body of the `try`
  unfoldable pub run_tool : Text → Option Args → Result (BusFailure Meta) Text
  run_tool name args =
      if name == codes "roster"
      then roster_tool args
      else if name == codes "chat"
      then chat_tool args
      else if name == codes "fetch"
      then fetch_tool args
      else if name == codes "announce"
      then announce_tool args
      else ok (codes "unknown tool " ++ name)

-- the two `except` clauses; the text names the URL of the settings
unfoldable pub tool_text : {Meta : Type 0} → Text → Result (BusFailure Meta) Text → Text
tool_text url (ok t) = t
tool_text url (err (bus_error e)) = fmt_error e
tool_text url (err (exception name)) =
    codes "Muster bus offline ("
    ++ (name ++ (codes "). Check MUSTER_URL=" ++ (url ++ codes " and your key.")))

module _ {Meta : Type 0} (url : Text) (c : MusterClient) (branch : Meta → Text) (now : ℕ)
    (send : Post → Came Meta) where
  -- `_call_tool`
  unfoldable pub call_tool : Text → Option Args → Text
  unfolding run_tool tool_text
  call_tool name args = tool_text url (run_tool c branch now send name args)

  counted : Result (BusFailure Meta) Text
  counted = do
    res ← rpc c send (codes "roster") ((codes "status", text (codes "all")) ∷ [])
    r ← roster_of res
    agents ← others c.agent r.agents
    ok (
        codes " "
        ++ (decimal (length (select (λ a. a.status == online) agents))
            ++ (codes " agent(s) online, " ++ (decimal (length agents) ++ codes " visible."))))

  or_unreachable : Result (BusFailure Meta) Text → Text
  or_unreachable (ok t) = t
  or_unreachable (err e) = codes " (bus unreachable right now — tools will retry)"

  -- the line that `welcome` pushes
  unfoldable welcome : Bool → Option Text
  unfolding counted or_unreachable
  welcome false = none
  welcome true = some (
      codes "FYI: Muster online (central bus) — you are \""
      ++ (c.agent
          ++ (codes "\" on "
              ++ (url
                  ++ (codes "."
                      ++ (or_unreachable counted
                          ++ codes
                              " Tools: roster, chat, fetch, announce. New here? Load the muster-chat skill (Skill: muster:muster-chat)."))))))
