-- ===== src/Ops/Dispatch.antt =====
-- `dispatch`: the handler that a request names.
pub mod Cursors
pub mod Named
pub mod Refusals
use muster_chat.Base.{
  ℕ, Bool, true, false, List, [], ◌∷◌, Result, ok, err, Text, codes, ◌==◌, if◌then◌else◌,
}
use muster_chat.Base.Exec.{Exec, ◌>>=◌, pure, lift, reads}
use muster_chat.Valkey.{Valkey, Json}
use muster_chat.Identity.{Address}
use muster_chat.Auth.{Identity}
use muster_chat.Config.{Config}
use muster_chat.Ops.Types.{Args, unknown_op, Failure, raised, Handler}
use muster_chat.Ops.Chat.{ChatReply, FetchedMessage, op_chat, op_fetch}
use muster_chat.Ops.Roster.{RosterReply, op_roster}
use muster_chat.Ops.Announce.{op_announce}

-- The dictionaries that the handlers return.
pub data Reply (Meta : Type 0) : Type 0 where
  chat_reply : ChatReply → Reply Meta
  fetch_reply : List FetchedMessage → Reply Meta
  roster_reply : RosterReply Meta → Reply Meta
  announce_reply : (recipients : ℕ) → Reply Meta

-- `sorted(_OPS)`
abbrev pub op_names : List Text
op_names = codes "announce" ∷ codes "chat" ∷ codes "fetch" ∷ codes "roster" ∷ []

module _ (v : Valkey) (json : Json) where
  open json use {Meta}

  unfoldable pub dispatch :
      Config → ℕ → Identity → Address → Text → Args → Handler v Meta (Reply Meta)
  dispatch cfg now ident sender op args =
      if op == codes "chat"
      then (op_chat v json cfg now ident sender args >>= λ r. pure (chat_reply r))
      else if op == codes "fetch"
      then (op_fetch v json now sender args >>= λ ms. pure (fetch_reply ms))
      else if op == codes "roster"
      then (reads (op_roster v json ident sender args) >>= λ r. pure (roster_reply r))
      else if op == codes "announce"
      then (op_announce v json cfg ident sender args >>= λ n. pure (announce_reply n))
      else lift (err (raised (unknown_op op_names)))
