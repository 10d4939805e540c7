-- ===== src/Oauth/Redirects.antt =====
-- Which redirect URIs the registry accepts.
use mathlib.Core.Path.{subst}
use mcpx.Base.{
  ℕ, ◌≡◌, refl, ◌⊎◌, Bool, true, false, Option, none, some, List, [], ◌∷◌, leb, length, any,
  Bool-cases, Option-cases, inl, inr, arith, Bytes, codes, str_eq, str_eq→eq, All,
}
use mcpx.Oauth.Server.{find, set}
use mcpx.Oauth.Registry.{
  Url, Client, Registry, Outcome, done, refused, is_loopback, is_absolute, then_add, check_scheme,
  check_parsed, check_uri, check_uris, validate_redirect_uris, preregistered, add_validated,
  add_preregistered, draw_id, registered, store, with_id, register_validated, register, supported,
  or_none, accepts_redirect, max_registered_clients,
}
use mcpx.Oauth.Backed.{All-delete, All-find}

module _ (parse : Bytes → Option Url) (to_lower : Bytes → Bytes) where
  -- The URI parses, has no fragment and no userinfo, and is HTTPS or HTTP to the loopback.
  abbrev pub IsProper : Bytes → Type 0
  IsProper uri =
      (u : Url) × (parse uri ≡ some u)
      × (u.fragment ≡ [])
      × (u.has_user ≡ false)
      × ((u.scheme ≡ codes "https")
          ⊎ ((u.scheme ≡ codes "http") × (is_loopback (to_lower u.hostname) ≡ true)))

  scheme_checked :
      (u : Url)
      → check_scheme parse to_lower u ≡ none
      → (u.scheme ≡ codes "https")
        ⊎ ((u.scheme ≡ codes "http") × (is_loopback (to_lower u.hostname) ≡ true))
  unfolding check_scheme
  scheme_checked u e = elim (Bool-cases (str_eq u.scheme (codes "https"))) [
    | inl m ↦ inl (str_eq→eq u.scheme (codes "https") m)
    | inr m ↦ elim (Bool-cases (str_eq u.scheme (codes "http"))) [
      | inl n ↦ inr (str_eq→eq u.scheme (codes "http") n, ground arith)
      | inr n ↦ absurd (ground arith)
    ]
  ]

  parsed_checked :
      (uri : Bytes) (o : Option Url)
      → parse uri ≡ o
      → check_parsed parse to_lower o ≡ none
      → IsProper uri
  unfolding check_parsed
  parsed_checked uri none e h = absurd (cc)
  parsed_checked uri (some u) e h =
      let fits : is_absolute u ≡ true = ground arith in
      (u, e, str_eq→eq u.fragment [] (ground arith), ground arith, scheme_checked u (ground arith))

  uri_checked : (uri : Bytes) → check_uri parse to_lower uri ≡ none → IsProper uri
  unfolding check_uri
  uri_checked uri h = parsed_checked uri (parse uri) refl (ground arith)

  then_added :
      (item : Bytes) (o : Outcome (List Bytes)) (out : List Bytes)
      → then_add item o ≡ done out
      → (rest : List Bytes) × (o ≡ done rest) × (out ≡ item ∷ rest)
  then_added item (done uris) out e = (uris, refl, cc)
  then_added item (refused r) out e = absurd (cc)

  no_uris : (out : List Bytes) → ◌≡◌ {A = Outcome (List Bytes)} (done []) (done out) → out ≡ []
  no_uris out e = cc

  uris_checked :
      (seen uris out : List Bytes)
      → check_uris parse to_lower seen uris ≡ done out
      → All IsProper out
  unfolding check_uris
  uris_checked seen [] out e = let empty : out ≡ [] = no_uris out e in rw (empty) tt
  uris_checked seen (item ∷ uris) out e = elim (Option-cases (check_uri parse to_lower item)) [
    | inr (r, m) ↦ absurd (ground arith)
    | inl m ↦ elim (Bool-cases (any (str_eq item) seen)) [
      | inl n ↦ absurd (ground arith)
      | inr n ↦
          let (rest, there, split) =
            then_added item (check_uris parse to_lower (item ∷ seen) uris) out (ground arith) in
          rw (split) (uri_checked item m, uris_checked (item ∷ seen) uris rest there)
    ]
  ]

  validated :
      (uris out : List Bytes)
      → validate_redirect_uris parse to_lower uris ≡ done out
      → All IsProper out
  unfolding validate_redirect_uris
  validated uris out e = uris_checked [] uris out (ground arith)

  abbrev IsSafe : Bytes × Client → Type 0
  IsSafe (id, c) = All IsProper c.redirect_uris

  pub data Call : Type 0 where
    preregistering :
        (saves : Bool) (id : Bytes) (uris : List Bytes) (secret : Bytes) (now : ℕ) → Call
    registering :
        (saves : Bool) (ids uris : List Bytes) (secret method name : Bytes) (now : ℕ) → Call

  module _ (digest : Bytes → Bytes) where
    -- The registry behind the calls.
    unfoldable pub run : List Call → Registry → Registry
    unfolding add_preregistered register
    run [] r = r
    run (preregistering saves id uris secret now ∷ calls) r =
        run calls (add_preregistered parse to_lower digest saves id uris secret now r).0
    run (registering saves ids uris secret method name now ∷ calls) r =
        run calls (register parse to_lower digest saves ids uris secret method name now r).0

    add_validated-IsSafe :
        (saves : Bool) (id secret : Bytes) (now : ℕ) (r : Registry) (o : Outcome (List Bytes))
        → ((out : List Bytes) → o ≡ done out → All IsProper out)
        → All IsSafe r.clients
        → All IsSafe (add_validated parse to_lower digest saves id secret now r o).0.clients
    unfolding add_validated preregistered set
    add_validated-IsSafe saves id secret now r (refused e) good h = h
    add_validated-IsSafe saves id secret now r (done uris) good h =
        (good uris refl, All-delete IsSafe id r.clients h)

    store-IsSafe :
        (saves : Bool) (c : Client) (r : Registry)
        → All IsProper c.redirect_uris
        → All IsSafe r.clients
        → All IsSafe (store parse to_lower digest saves c r).0.clients
    unfolding store set
    store-IsSafe true c r good h = (good, All-delete IsSafe c.client_id r.clients h)
    store-IsSafe false c r good h =
        All-delete IsSafe c.client_id (set c.client_id c r.clients)
          (good, All-delete IsSafe c.client_id r.clients h)

    with_id-IsSafe :
        (saves : Bool) (secret method name : Bytes) (now : ℕ) (uris : List Bytes) (r : Registry)
        (o : Option Bytes)
        → All IsProper uris
        → All IsSafe r.clients
        → All IsSafe (with_id parse to_lower digest saves secret method name now uris r o).0.clients
    unfolding with_id registered
    with_id-IsSafe saves secret method name now uris r none good h = h
    with_id-IsSafe saves secret method name now uris r (some id) good h =
        store-IsSafe saves (registered parse to_lower digest id secret method name now uris) r good
          h

    register_validated-IsSafe :
        (saves : Bool) (ids : List Bytes) (secret method name : Bytes) (now : ℕ) (r : Registry)
        (o : Outcome (List Bytes))
        → ((out : List Bytes) → o ≡ done out → All IsProper out)
        → All IsSafe r.clients
        → All IsSafe
            (register_validated parse to_lower digest saves ids secret method name now r
              o).0.clients
    unfolding register_validated
    register_validated-IsSafe saves ids secret method name now r (refused e) good h = h
    register_validated-IsSafe saves ids secret method name now r (done uris) good h =
        elim (Bool-cases (supported parse to_lower digest method)) [
          | inl m ↦ rw (m) (elim (Bool-cases (leb max_registered_clients (length r.clients))) [
            | inl n ↦ rw (n) h
            | inr n ↦ rw (n) (
                with_id-IsSafe saves secret method name now uris r
                  (draw_id parse to_lower digest ids r.clients) (good uris refl) h)
          ])
          | inr m ↦ rw (m) h
        ]

    run-IsSafe :
        (calls : List Call) (r : Registry) → All IsSafe r.clients → All IsSafe (run calls r).clients
    unfolding run
    run-IsSafe [] r h = h
    run-IsSafe (preregistering saves id uris secret now ∷ calls) r h = run-IsSafe calls _ (
        add_validated-IsSafe saves id secret now r (validate_redirect_uris parse to_lower uris)
          (validated uris) h)
    run-IsSafe (registering saves ids uris secret method name now ∷ calls) r h =
        run-IsSafe calls _ (
          register_validated-IsSafe saves ids secret (or_none method) name now r
            (validate_redirect_uris parse to_lower uris) (validated uris) h)

    accepted_uri :
        (uri : Bytes) (uris : List Bytes)
        → any (λ u. str_eq u uri) uris ≡ true
        → All IsProper uris
        → IsProper uri
    accepted_uri uri [] e h = absurd (cc)
    accepted_uri uri (u ∷ uris) e (h, hs) = elim (Bool-cases (str_eq u uri)) [
      | inl m ↦ let same = str_eq→eq u uri m in subst IsProper same h
      | inr m ↦ accepted_uri uri uris (ground arith) hs
    ]

    accepted_by :
        (id uri : Bytes) (r : Registry)
        → accepts_redirect id uri r ≡ true
        → (c : Client) × (find id r.clients ≡ some c)
          × (any (λ u. str_eq u uri) c.redirect_uris ≡ true)
    unfolding accepts_redirect
    accepted_by id uri r e = elim (Option-cases (find id r.clients)) [
      | inl m ↦ absurd (ground arith)
      | inr (c, m) ↦ (c, m, ground arith)
    ]

    -- Behind any registrations, static and dynamic ones and such that could not be saved, on a registry that
    -- has no client at first, a redirect URI that AcceptsRedirect accepts for any client parses as one
    -- without fragment and userinfo and is HTTPS, or HTTP to the loopback.
    pub accepted-IsProper :
        (calls : List Call) (id uri : Bytes)
        → accepts_redirect id uri (run calls (record { clients = [] })) ≡ true
        → IsProper uri
    accepted-IsProper calls id uri e =
        let r = run calls (record { clients = [] }) in
        let (c, there, listed) = accepted_by id uri r e in
        accepted_uri uri c.redirect_uris listed
          (All-find IsSafe id c r.clients (run-IsSafe calls (record { clients = [] }) tt) there)
