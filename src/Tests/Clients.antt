-- ===== src/Tests/Clients.antt =====
-- The settings of a server, and the names of two worktrees.
use muster_chat.Base.{
  pos, negsuc, ◌≡◌, refl, List, [], ◌∷◌, Option, none, some, ok, Text, Fields, codes, ◌==◌, lookup,
  int_of_text, strip, arith, if◌then◌else◌,
}
use muster_chat.Config.{StaticKey}
use muster_chat.Config.Load.{Settings, load, settings_of, checked, setting, env_or, env_set, below}
use muster_chat.Config.Loaded.{IsLoaded, load-IsLoaded}
use muster_chat.Naming.{derive_project}
use muster_chat.GitMeta.{git_identity, identity_of, basename, dirname, cut, or_missing}
use muster_chat.GitMeta.Worktrees.{
  Says, Checkout, linked, gitdir_of, name_of, IsCheckout, common_dir, checkouts_apart, project_of,
}

abbrev no_keys : Text → Option (List (Text × StaticKey))
no_keys t = some []

abbrev loaded : Settings
loaded = record {
  valkey_url = codes "redis://localhost:6379/1";
  resolver_url = none;
  resolver_header = codes "x-litellm-api-key";
  user_field = codes "user_id";
  groups_field = codes "teams";
  static_keys = [];
  auth_cache_ttl = pos 60;
  message_ttl = pos 100;
  agent_retention = pos 604800;
  inbox_maxlen = pos 1000;
  chat_rate = negsuc 4;
  announce_rate = pos 3;
  rate_window = pos 60;
  body_max = pos 262144;
  ping_interval = pos 15;
  presence_ttl = pos 60;
}

-- a lifetime of messages, and a rate that is negative
abbrev variables : Fields
variables = (codes "MUSTER_MESSAGE_TTL", codes "100") ∷ (codes "MUSTER_CHAT_RATE", codes "-5") ∷ []

loads_defaults : load no_keys variables ≡ ok loaded
unfolding load settings_of checked setting env_or env_set below lookup ◌==◌ int_of_text strip
loads_defaults = refl

load-IsLoaded_example : IsLoaded no_keys variables loaded
load-IsLoaded_example = load-IsLoaded no_keys variables loaded loads_defaults

-- git in a worktree of the repository at `/w/app`
abbrev pub answers : List Text → Option Text
answers (g ∷ c ∷ cwd ∷ r ∷ what ∷ []) =
    if what == codes "--git-common-dir"
    then some (codes "/w/app/.git\n")
    else some (codes "/w/app/.git/worktrees/fix\n")
answers cmd = none

abbrev pub absolute : Text → Text → Text
absolute cwd p = p

abbrev fix : Checkout
fix = linked (codes "/w/app/.git/worktrees") (codes "fix")

abbrev shared_dir : Text
shared_dir = common_dir (codes "/w") (codes "app") (codes ".git")

said : (cwd : Text) → Says answers absolute cwd shared_dir (gitdir_of shared_dir fix)
unfolding ◌==◌ strip
said cwd = record {
  common_out = codes "/w/app/.git\n";
  gitdir_out = codes "/w/app/.git/worktrees/fix\n";
  ran_common = refl;
  ran_gitdir = refl;
  at_common = refl;
  at_gitdir = refl;
}

fix-IsCheckout : IsCheckout shared_dir fix
fix-IsCheckout = (λ e. ground arith, omega arith, λ e. ground arith)

one_project :
    project_of answers absolute (codes "/t") ≡ project_of answers absolute (codes "/t/sub")
unfolding derive_project git_identity identity_of ◌==◌ strip basename dirname cut or_missing
one_project = refl

checkouts_apart_example : name_of fix ≡ name_of fix
checkouts_apart_example =
    checkouts_apart answers absolute (codes "/w") (codes "app") (codes ".git")
      (omega arith, λ e. ground arith, omega arith) (codes "/t") (codes "/t/sub") fix fix
      fix-IsCheckout fix-IsCheckout (said (codes "/t")) (said (codes "/t/sub")) one_project
