-- ===== src/App/Streams.antt =====
-- server/muster_api/app.py and server/muster_api/stream.py: how `/v1/stream` is opened. What
-- `json.loads` makes of the header of the client data is a parameter, as is its empty dictionary.
use mathlib.Core.Path.{subst}
use muster_chat.Base.{
  ◌≡◌, sym, ap, ◌∙◌, List, Option, none, some, ok, Text, codes, is_empty, if◌then◌else◌,
}
use muster_chat.Base.Exec.{◌>>=◌, pure}
use muster_chat.Base.Handlers.{after_step, ended_alike}
use muster_chat.Valkey.{Valkey, Laws, Json}
use muster_chat.Identity.{Address, address_text}
use muster_chat.Auth.{Identity, Doc, Outcome}
use muster_chat.Config.{Config}
use muster_chat.Store.Deliver.{World}
use muster_chat.Stream.Session.{Act, fresh_session, acts}
use muster_chat.Stream.Foreign.{IsForeign, acts-cell}
use muster_chat.App.{Request, Times, Server, Problem, Route, header, caller}
use muster_chat.App.Stamped.{IsCaller, caller_sound}

-- `request.headers.get(name) or "{}"`
unfoldable pub meta_header : Option Text → Text
meta_header none = codes "{}"
meta_header (some t) = if is_empty t then codes "{}" else t

module _ (v : Valkey) (json : Json) (digest : Text → Text) (repr : Doc → Text)
    (ask : Text → Text → Text → Outcome) (cfg : Config) where
  open json use {Meta}

  -- What `gen` is a closure of.
  pub record Opened : Type 0 where
    pub ident : Identity
    pub addr : Address
    pub meta : Meta
    pub key : Text

  module _ (loads : Text → Option Meta) (no_meta : Meta) where
    -- the client data, empty where the header is not JSON
    unfoldable pub meta_of : Option Text → Meta
    unfolding meta_header
    meta_of h = elim (loads (meta_header h)) [ none ↦ no_meta | some m ↦ m ]

    -- `stream_route` and the head of `stream_endpoint`
    unfoldable pub stream_route :
        Times → Request → Option Text → Route v json digest repr ask cfg Opened
    unfolding meta_of
    stream_route t req h = caller v json digest repr ask cfg t req >>= λ (ident, addr).
        pure (record { ident = ident; addr = addr; meta = meta_of h; key = header req.api_key })

module _ (v : Valkey) (laws : Laws v) (json : Json) (digest : Text → Text) (repr : Doc → Text)
    (ask : Text → Text → Text → Outcome) (cfg : Config) where
  open v use {cell}
  open json use {Meta}

  -- A stream that is opened has a key and is that of the identity that the key stands for, at the
  -- address whose user is that identity's and whose other segments make up the header; and in
  -- whatever steps, it changes nothing but the directory, and the hash and the presence of the
  -- agent at this address.
  pub stream_route_sound :
      (loads : Text → Option Meta) (no_meta : Meta) (t : Times) (req : Request) (h : Option Text)
      (s s' : Server v) (o : Opened v json digest repr ask cfg) (connection_id : Text)
      (xs : List Act) (k : Text)
      → stream_route v json digest repr ask cfg loads no_meta t req h s ≡ (ok o, s')
      → IsForeign (address_text o.addr) k
      → IsCaller v json digest repr ask cfg t req s.cache o.ident o.addr
        × (cell
              (acts v json cfg o.addr connection_id o.meta xs
                (fresh_session o.ident, s'.world.db)).1
              k
            ≡ cell s.world.db k)
  unfolding stream_route
  stream_route_sound loads no_meta t req h s s' o c xs k ran foreign =
      let C : Type 0 =
        IsCaller v json digest repr ask cfg t req s.cache o.ident o.addr
        × (cell (acts v json cfg o.addr c o.meta xs (fresh_session o.ident, s'.world.db)).1 k
            ≡ cell s.world.db k) in
      after_step {C = C} (caller v json digest repr ask cfg t req) _ s ran λ who u q l.
        let (is_caller, kept) = caller_sound v json digest repr ask cfg t req s u who q in
        let opened : Opened v json digest repr ask cfg = record {
          ident = who.0;
          addr = who.1;
          meta = meta_of v json digest repr ask cfg loads no_meta h;
          key = header req.api_key;
        } in
        let (same, same_state) = ended_alike {E = Problem Meta} opened o u s' l in
        (
          subst
              (λ (x : Opened v json digest repr ask cfg).
                IsCaller v json digest repr ask cfg t req s.cache x.ident x.addr)
              same is_caller,
          acts-cell v laws json cfg o.addr k foreign c o.meta xs (fresh_session o.ident) s'.world.db
              ∙ ap (λ (z : Server v). cell z.world.db k) (sym same_state)
              ∙ ap (λ (w : World v). cell w.db k) kept,
        )
