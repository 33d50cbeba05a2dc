-- ===== src/Auth/Resolved.antt =====
-- What an identity rests on, and what the cache holds.
use muster_chat.Base.{
  ℕ, ◌+◌, ◌<◌, ◌≡◌, ◌≢◌, ◌⊎◌, refl, sym, ap, ◌∙◌, true, false, [], ◌∷◌, Option, none, some, ok, err,
  ok-injective, Text, ◌==◌, ==_iff, leb, ltb_iff, leb_iff, if◌then◌else◌, Bool-cases, Option-cases,
  inl, inr, arith, All, split,
}
use muster_chat.Config.{Config, StaticKey}
use muster_chat.Auth.{
  Identity, Doc, refused, key_refused, Outcome, answered, unreachable, Cached, Cache, cached,
  without, with_cached, static_entry, fresh, dig, str, tuple_of, identity_of, is_refusal, accept,
  settle, ask_resolver, resolve,
}

cached-without :
    (kh j : Text) (cache : Cache)
    → cached j (without kh cache) ≡ (if kh == j then none else cached j cache)
unfolding cached without
cached-without kh j [] = ground arith
cached-without kh j ((k, c) ∷ cache) =
    ground (arith, cached-without kh j cache, ==_iff k kh, ==_iff k j, ==_iff kh j)

fresh_inv :
    (now : ℕ) (o : Option Cached) (ident : Identity)
    → fresh now o ≡ some ident
    → (c : Cached) × (o ≡ some c) × (now < c.fresh_until) × (c.ident ≡ ident)
unfolding fresh
fresh_inv now none ident h = absurd (ground arith)
fresh_inv now (some c) ident h = (c, refl, ground (arith, ltb_iff now c.fresh_until), ground arith)

module _ (digest : Text → Text) (repr : Doc → Text) (ask : Text → Text → Text → Outcome)
    (cfg : Config) where
  -- A document names an identity: by the text of its user, and by the groups that are listed in it.
  abbrev IsNamed : Doc → Identity → Type 0
  IsNamed d ident =
      (user : Doc) × (groups : Doc) × (dig (split b'.' cfg.user_field) d ≡ some user)
      × (dig (split b'.' cfg.groups_field) d ≡ some groups)
      × (str repr user ≡ ident.user_id)
      × (tuple_of groups ≡ some ident.groups)

  identity_of-IsNamed :
      (d : Doc) (ident : Identity) → identity_of repr cfg d ≡ some ident → IsNamed d ident
  unfolding identity_of
  identity_of-IsNamed d ident h = elim (Option-cases (dig (split b'.' cfg.user_field) d)) [
    | inl q ↦ absurd (ground (arith, rw (identity_of, q) at h))
    | inr (u, q) ↦ elim (Option-cases (dig (split b'.' cfg.groups_field) d)) [
      | inl r ↦ absurd (ground (arith, rw (identity_of, q, r) at h))
      | inr (g, r) ↦ elim (Option-cases (tuple_of g)) [
        | inl k ↦ absurd (ground (arith, rw (identity_of, q, r, k) at h))
        | inr (gs, k) ↦
            let e : ◌≡◌ {A = Option Identity} (some (record { user_id = str repr u; groups = gs }))
                (some ident) =
              rw (identity_of, q, r, k) at h in
            let same : record { user_id = str repr u; groups = gs } ≡ ident = cc in
            (
              u,
              g,
              q,
              r,
              ap (λ (i : Identity). i.user_id) same,
              k ∙ ap (λ (i : Identity). some i.groups) same,
            )
      ]
    ]
  ]

  -- The resolver has said just now who the holder of the key is.
  abbrev Said : Text → Identity → Type 0
  Said key ident =
      (url : Text) × (status : ℕ) × (d : Doc) × (cfg.resolver_url ≡ some url)
      × (ask url cfg.resolver_header key ≡ answered status (some d))
      × (is_refusal status ≡ false)
      × (status < 500)
      × IsNamed d ident

  -- What an identity rests on: the static keys, an entry of the cache that is fresh, or the resolver.
  abbrev pub Rests : ℕ → Text → Cache → Identity → Type 0
  Rests now key cache ident =
      ((e : StaticKey) × (static_entry key cfg.static_keys ≡ some e)
        × (ident ≡ record { user_id = e.user_id; groups = e.groups }))
      ⊎ (((c : Cached) × (cached (digest key) cache ≡ some c)
            × (now < c.fresh_until)
            × (c.ident ≡ ident))
          ⊎ Said key ident)

  accept-ok :
      (kh : Text) (later : ℕ) (body : Option Doc) (cache : Cache) (ident : Identity)
      → (accept digest repr ask cfg kh later body cache).0 ≡ ok ident
      → (d : Doc) × (body ≡ some d) × (identity_of repr cfg d ≡ some ident)
  unfolding accept
  accept-ok kh later none cache ident h = absurd (ground arith)
  accept-ok kh later (some d) cache ident h = elim (Option-cases (identity_of repr cfg d)) [
    | inl q ↦ absurd (ground (arith, rw (accept, q) at h))
    | inr (i, q) ↦ (d, refl, q ∙ ap some (ok-injective (rw (accept, q) at h)))
  ]

  settle-ok :
      (kh : Text) (later : ℕ) (outcome : Outcome) (cache : Cache) (ident : Identity)
      → (settle digest repr ask cfg kh later outcome cache).0 ≡ ok ident
      → (status : ℕ) × (d : Doc) × (outcome ≡ answered status (some d))
        × (is_refusal status ≡ false)
        × (status < 500)
        × (identity_of repr cfg d ≡ some ident)
  unfolding settle
  settle-ok kh later unreachable cache ident h = absurd (ground arith)
  settle-ok kh later (answered status body) cache ident h = elim (Bool-cases (is_refusal status)) [
    | inl q ↦ absurd (ground (arith, rw q at h))
    | inr q ↦ elim (Bool-cases (leb 500 status)) [
      | inl r ↦ absurd (ground (arith, rw (q, r) at h))
      | inr r ↦
          let (d, e, i) = accept-ok kh later body cache ident (rw (q, r) at h) in
          (status, d, ap (answered status) e, q, ground (arith, leb_iff 500 status), i)
    ]
  ]

  ask_resolver-ok :
      (later : ℕ) (key : Text) (url : Option Text) (cache : Cache) (ident : Identity)
      → cfg.resolver_url ≡ url
      → (ask_resolver digest repr ask cfg later key url cache).0 ≡ ok ident
      → Said key ident
  unfolding ask_resolver
  ask_resolver-ok later key none cache ident e h = absurd (ground arith)
  ask_resolver-ok later key (some []) cache ident e h = absurd (ground arith)
  ask_resolver-ok later key (some (c ∷ url)) cache ident e h =
      let (status, d, q, ok_status, below, i) = settle-ok (digest key) later _ cache ident h in
      (c ∷ url, status, d, e, q, ok_status, below, identity_of-IsNamed d ident i)

  -- Every identity that a key is resolved to rests on the static keys, on a fresh entry of the
  -- cache, or on an answer of the resolver just now that was no refusal and no error, in whose
  -- document the two paths of the settings lead to its user and to its groups; and the key is not
  -- empty.
  pub resolve_lem :
      (now later : ℕ) (key : Text) (cache : Cache) (ident : Identity)
      → (resolve digest repr ask cfg now later key cache).0 ≡ ok ident
      → (key ≢ []) × Rests now key cache ident
  unfolding resolve
  resolve_lem now later [] cache ident h = absurd (ground arith)
  resolve_lem now later (c ∷ key) cache ident h = (
    λ e. ground arith,
    elim (Option-cases (static_entry (c ∷ key) cfg.static_keys)) [
      | inr (e, q) ↦ inl (e, q, sym (ok-injective (rw (resolve, q) at h)))
      | inl q ↦ elim (Option-cases (fresh now (cached (digest (c ∷ key)) cache))) [
        | inr (i, r) ↦
            let (hit, at_key, on_time, same) = fresh_inv now _ i r in
            inr (inl (hit, at_key, on_time, same ∙ ok-injective (rw (resolve, q, r) at h)))
        | inl r ↦ inr (
            inr (
              ask_resolver-ok later (c ∷ key) cfg.resolver_url cache ident refl
                (rw (resolve, q, r) at h)))
      ]
    ],
  )

  -- A key that is no static key and has no fresh entry in the cache, and that the resolver refuses,
  -- is refused, and its entry leaves the cache, in which all others stay.
  resolve-refused :
      (now later : ℕ) (c : ℕ) (key url : Text) (d : ℕ) (status : ℕ) (body : Option Doc)
      (cache : Cache)
      → static_entry (c ∷ key) cfg.static_keys ≡ none
      → fresh now (cached (digest (c ∷ key)) cache) ≡ none
      → cfg.resolver_url ≡ some (d ∷ url)
      → ask (d ∷ url) cfg.resolver_header (c ∷ key) ≡ answered status body
      → is_refusal status ≡ true
      → ((resolve digest repr ask cfg now later (c ∷ key) cache).0 ≡ err (refused key_refused))
        × ((j : Text)
            → cached j (resolve digest repr ask cfg now later (c ∷ key) cache).1
              ≡ (if digest (c ∷ key) == j then none else cached j cache))
  unfolding resolve ask_resolver settle
  resolve-refused now later c key url d status body cache unknown stale at_url answer refusal =
      rw (resolve, unknown, stale, at_url, answer, refusal)
        (refl, λ j. cached-without (digest (c ∷ key)) j cache)

  -- Every entry of the cache is one that `V` vouches for.
  abbrev pub Vouched : (Text → Cached → Type 0) → Cache → Type 0
  Vouched V = All (λ (kh, c). V kh c)

  module _ (V : Text → Cached → Type 0) where
    without-Vouched : (kh : Text) (cache : Cache) → Vouched V cache → Vouched V (without kh cache)
    unfolding without
    without-Vouched kh [] h = tt
    without-Vouched kh ((k, c) ∷ cache) (h, hs) = elim (Bool-cases (k == kh)) [
      | inl q ↦ rw q (without-Vouched kh cache hs)
      | inr q ↦ rw q (h, without-Vouched kh cache hs)
    ]

    accept-Vouched :
        (kh : Text) (later : ℕ) (body : Option Doc) (cache : Cache)
        → Vouched V cache
        → ((d : Doc) (ident : Identity)
            → body ≡ some d
            → identity_of repr cfg d ≡ some ident
            → V kh (record { ident = ident; fresh_until = later + cfg.auth_cache_ttl }))
        → Vouched V (accept digest repr ask cfg kh later body cache).1
    unfolding accept with_cached
    accept-Vouched kh later none cache h k = h
    accept-Vouched kh later (some d) cache h k = elim (Option-cases (identity_of repr cfg d)) [
      | inl q ↦ rw (accept, q) h
      | inr (ident, q) ↦ rw (accept, q) (k d ident refl q, without-Vouched kh cache h)
    ]

    settle-Vouched :
        (kh : Text) (later : ℕ) (outcome : Outcome) (cache : Cache)
        → Vouched V cache
        → ((status : ℕ) (d : Doc) (ident : Identity)
            → outcome ≡ answered status (some d)
            → is_refusal status ≡ false
            → status < 500
            → identity_of repr cfg d ≡ some ident
            → V kh (record { ident = ident; fresh_until = later + cfg.auth_cache_ttl }))
        → Vouched V (settle digest repr ask cfg kh later outcome cache).1
    unfolding settle
    settle-Vouched kh later unreachable cache h k = h
    settle-Vouched kh later (answered status body) cache h k =
        elim (Bool-cases (is_refusal status)) [
          | inl q ↦ rw q (without-Vouched kh cache h)
          | inr q ↦ elim (Bool-cases (leb 500 status)) [
            | inl r ↦ rw (q, r) h
            | inr r ↦
                rw (q, r)
                  (accept-Vouched kh later body cache h λ d ident e i.
                    k status d ident (ap (answered status) e) q (ground (arith, leb_iff 500 status))
                      i)
          ]
        ]

    ask_resolver-Vouched :
        (later : ℕ) (key : Text) (url : Option Text) (cache : Cache)
        → cfg.resolver_url ≡ url
        → Vouched V cache
        → ((ident : Identity)
            → Said key ident
            → V (digest key) (record { ident = ident; fresh_until = later + cfg.auth_cache_ttl }))
        → Vouched V (ask_resolver digest repr ask cfg later key url cache).1
    unfolding ask_resolver
    ask_resolver-Vouched later key none cache e h k = h
    ask_resolver-Vouched later key (some []) cache e h k = h
    ask_resolver-Vouched later key (some (c ∷ url)) cache e h k =
        settle-Vouched (digest key) later _ cache h λ status d ident q no_refusal below i.
          k ident (c ∷ url, status, d, e, q, no_refusal, below, identity_of-IsNamed d ident i)

    -- Whatever vouches for the entries of the cache and for what the resolver says just now, fresh
    -- for the time of the cache, vouches for the entries afterwards.
    pub resolve-Vouched :
        (now later : ℕ) (key : Text) (cache : Cache)
        → Vouched V cache
        → ((ident : Identity)
            → Said key ident
            → V (digest key) (record { ident = ident; fresh_until = later + cfg.auth_cache_ttl }))
        → Vouched V (resolve digest repr ask cfg now later key cache).1
    unfolding resolve
    resolve-Vouched now later [] cache h k = h
    resolve-Vouched now later (c ∷ key) cache h k =
        elim (Option-cases (static_entry (c ∷ key) cfg.static_keys)) [
          | inr (e, q) ↦ rw (resolve, q) h
          | inl q ↦ elim (Option-cases (fresh now (cached (digest (c ∷ key)) cache))) [
            | inr (i, r) ↦ rw (resolve, q, r) h
            | inl r ↦
                rw (resolve, q, r)
                  (ask_resolver-Vouched later (c ∷ key) cfg.resolver_url cache refl h k)
          ]
        ]
