-- ===== src/App/Entered.antt =====
-- A request whose key and header are accepted.
use muster_chat.Base.{◌≡◌, refl, Option, ok, map_err, Text}
use muster_chat.Valkey.{Valkey, Json}
use muster_chat.Identity.{Address, parse_agent_header}
use muster_chat.Auth.{Identity, Doc, Outcome, resolve}
use muster_chat.Config.{Config}
use muster_chat.Ops.Types.{Value, Args}
use muster_chat.Ops.Dispatch.{dispatch}
use muster_chat.App.{
  dict, call, Times, Server, op, header, op_name, respond, authenticate, caller, on_world, run_call,
  run_body, rpc, handle,
}

module _ (v : Valkey) (json : Json) (digest : Text → Text) (repr : Doc → Text)
    (ask : Text → Text → Text → Outcome) (cfg : Config) where
  -- A request whose key and header are accepted is answered as its operation ends.
  pub handle_entered :
      (t : Times) (api_key agent : Option Text) (name : Value) (args : Args) (s : Server v)
      (ident : Identity) (addr : Address)
      → (resolve digest repr ask cfg t.asked t.settled (header api_key) s.cache).0 ≡ ok ident
      → parse_agent_header ident.user_id (header agent) ≡ ok addr
      → (handle v json digest repr ask cfg t
          (record { api_key = api_key; agent = agent; body = call name (dict args) })
          s).0
        ≡ respond (map_err op (dispatch v json cfg t.wall ident addr (op_name name) args s.world).0)
  unfolding handle rpc caller authenticate run_body run_call on_world
  handle_entered t api_key agent name args s ident addr keyed named = rw (keyed, named) refl
