-- ===== src/Channel/Startup.antt =====
-- plugins/muster/mcp/muster_channel.py: how a channel starts. The environment, the name of the host,
-- the working directory, the process number and what git prints are parameters.
use muster_chat.Base.{
  ℕ, ◌≡◌, refl, Bool, true, not, List, [], ◌∷◌, ◌++◌, Option, none, some, ok, Text, Fields, codes,
  ◌==◌, ==_refl, contains, Lacks, join,
}
use muster_chat.Valkey.{Valkey, Json}
use muster_chat.Identity.{slash, Address, address_text}
use muster_chat.Identity.Header.{client_half}
use muster_chat.Naming.{derive_address}
use muster_chat.Naming.Segments.{stamped, parse_agent_header-derive_address}
use muster_chat.GitMeta.{git_info, git_identity}
use muster_chat.Auth.{Identity, Doc, Outcome, resolve}
use muster_chat.Config.{Config}
use muster_chat.Config.Load.{env_or}
use muster_chat.Ops.Types.{Args}
use muster_chat.App.{Times, Server, header, authenticate, caller}
use muster_chat.Bus.{MusterClient, muster_client, post_of}
use muster_chat.Bus.Answers.{request_of}
use muster_chat.Channel.{is_self}
use muster_chat.Channel.Tools.Itself.{after_slash-append}

-- `WELCOME` and `INBOUND`
unfoldable welcomes : Fields → Bool
welcomes env = not (
    contains (codes "0" ∷ codes "false" ∷ [] ∷ [])
      (env_or (codes "MUSTER_WELCOME") (codes "0") env))

unfoldable takes_inbound : Fields → Bool
takes_inbound env = not (env_or (codes "MUSTER_INBOUND") (codes "accept") env == codes "refuse")

-- The client data of the agent.
pub record ClientMeta : Type 0 where
  pub branch : Text
  pub cwd : Text
  pub worktree : Bool

-- the four segments behind the user
abbrev half : Address → Text
half addr = join (slash ∷ []) (client_half addr)

address_text-half : (addr : Address) → address_text addr ≡ addr.user ++ (slash ∷ half addr)
unfolding address_text
address_text-half addr = refl

is_self-address_text :
    {Meta : Type 0} (addr : Address)
    → Lacks slash addr.user
    → is_self {Meta = Meta} (half addr) (address_text addr) ≡ ok true
unfolding is_self
is_self-address_text addr bare =
    rw
      (
        address_text-half addr,
        after_slash-append addr.user (half addr) bare,
        is_self,
        ==_refl (half addr),
      )
      refl

module _ (run : List Text → Option Text) (real : Text → Text → Text) (env : Fields)
    (hostname cwd : Text) (pid : ℕ) where
  -- the host, the runtime, the project and the session of the agent
  unfoldable resolve_address : Text
  resolve_address = derive_address env (codes "claude") (git_identity run real cwd) cwd hostname pid

  -- `branch or ""`
  unfoldable branch_or_empty : Option Text → Text
  branch_or_empty none = []
  branch_or_empty (some b) = b

  unfoldable build_meta : ClientMeta
  unfolding branch_or_empty
  build_meta =
      let (branch, is_worktree) = git_info run real cwd in
      record { branch = branch_or_empty branch; cwd = cwd; worktree = is_worktree }

  -- `MusterClient(URL, API_KEY, AGENT, meta=build_meta())`, without the client data
  unfoldable pub client : MusterClient
  unfolding resolve_address
  client =
      muster_client (env_or (codes "MUSTER_URL") (codes "http://localhost:8765") env)
        (env_or (codes "MUSTER_API_KEY") (codes "dev-key") env) resolve_address

  module _ (v : Valkey) (json : Json) (digest : Text → Text) (repr : Doc → Text)
      (ask : Text → Text → Text → Outcome) (cfg : Config) where
    open json use {Meta}

    -- Whatever the environment and whatever git prints: where the key of the client stands for an
    -- identity, its requests are run for this identity, at an address of its user; and where this
    -- user holds no slash, the client knows this address as its own.
    pub client_admitted :
        (t : Times) (s : Server v) (ident : Identity) (op : Text) (args : Args)
        → (resolve digest repr ask cfg t.asked t.settled client.api_key s.cache).0 ≡ ok ident
        → Lacks slash ident.user_id
        → (addr : Address) × ((caller v json digest repr ask cfg t
              (request_of (post_of client op args))
              s).0
            ≡ ok (ident, addr))
          × (addr.user ≡ ident.user_id)
          × (is_self {Meta = Meta} client.agent (address_text addr) ≡ ok true)
    client_admitted t s ident op args resolved bare =
        let git_id = git_identity run real cwd in
        let addr = stamped ident.user_id env (codes "claude") git_id cwd hostname pid in
        (
          addr,
          unfold caller authenticate request_of post_of header client muster_client
                resolve_address in
              rw
                (
                  resolved,
                  parse_agent_header-derive_address ident.user_id env (codes "claude") git_id cwd
                      hostname pid,
                )
                refl,
          refl,
          unfold client muster_client resolve_address derive_address in
              is_self-address_text addr bare,
        )
