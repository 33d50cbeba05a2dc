-- ===== src/Tests/Keys.antt =====
-- Keys of callers, where the resolver knows one key and refuses the others.
use muster_chat.Base.{
  ◌≡◌, ◌≢◌, refl, [], ◌∷◌, none, some, ok, Text, codes, ◌==◌, if◌then◌else◌, split, arith, ◌≤◌,
}
use muster_chat.Config.{Config}
use muster_chat.Auth.{
  Identity, Doc, text, texts, dict, member, empty, Outcome, answered, Cached, cached, resolve,
  ask_resolver, settle, accept, identity_of, dig_one, value_at, static_entry, fresh,
}
use muster_chat.Auth.Resolved.{Rests, Vouched, resolve_lem, resolve-Vouched}
use muster_chat.Tests.Samples.{settings}

abbrev resolving : Config
resolving = record settings {
  resolver_url = some (codes "http://r");
  user_field = codes "user.id";
  groups_field = codes "teams";
}

abbrev known : Doc
known = dict (
    member (codes "user") (dict (member (codes "id") (text (codes "ann")) empty))
      (member (codes "teams") (texts (codes "ops" ∷ [])) empty))

abbrev asked : Text → Text → Text → Outcome
asked url header key = if key == codes "k" then answered 200 (some known) else answered 403 none

abbrev shown : Doc → Text
shown d = []

abbrev same : Text → Text
same t = t

abbrev ann : Identity
ann = record { user_id = codes "ann"; groups = codes "ops" ∷ [] }

known_key : (resolve same shown asked resolving 5 6 (codes "k") []).0 ≡ ok ann
unfolding resolve static_entry fresh cached ask_resolver settle ◌==◌ accept identity_of split
    dig_one value_at
known_key = refl

resolve_lem_example : (codes "k" ≢ []) × Rests same shown asked resolving 5 (codes "k") [] ann
resolve_lem_example = resolve_lem same shown asked resolving 5 6 (codes "k") [] ann known_key

abbrev hit : Cached
hit = record { ident = ann; fresh_until = 3 }

resolve-Vouched_example :
    Vouched same shown asked resolving
      (λ kh c. 3 ≤ c.fresh_until)
      (resolve same shown asked resolving 5 6 (codes "k") ((codes "x", hit) ∷ [])).1
resolve-Vouched_example =
    resolve-Vouched same shown asked resolving (λ kh c. 3 ≤ c.fresh_until) 5 6 (codes "k")
      ((codes "x", hit) ∷ []) (omega arith, tt) (λ ident s. omega arith)
