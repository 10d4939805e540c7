-- ===== src/Oauth/Registry.antt =====
-- internal/oauth/registry.go. url.Parse, strings.ToLower and the digest of a secret are parameters; the
-- random IDs and secrets and the clock are arguments, as is whether the file can be saved. A
-- registration comes with its metadata as texts: an empty method or name is one that is not given.
use mcpx.Base.{
  ℕ, Bool, false, not, ◌&&◌, ◌||◌, Option, none, some, List, [], ◌∷◌, if◌then◌else◌, ltb, leb,
  length, take, any, Bytes, codes, str_eq, trim_space,
}
use mcpx.Oauth.Server.{delete, find, set}

pub record Url : Type 0 where
  pub scheme : Bytes
  pub host : Bytes
  pub hostname : Bytes
  pub fragment : Bytes
  pub has_user : Bool

pub record Client : Type 0 where
  pub client_id : Bytes
  pub redirect_uris : List Bytes
  pub auth_method : Bytes
  pub client_name : Bytes
  pub secret_digest : Bytes
  pub client_issued_at : ℕ

pub record Registry : Type 0 where
  pub clients : List (Bytes × Client)

pub data Refusal : Type 0 where
  invalid_count invalid_uri not_absolute not_loopback unknown_scheme not_unique unsupported_auth
        limit_reached still_drawing not_persisted :
      Refusal

pub data Outcome (A : Type 0) : Type 0 where
  done : A → Outcome A
  refused : Refusal → Outcome A

abbrev pub max_registered_clients : ℕ
max_registered_clients = 1024

abbrev pub is_loopback : Bytes → Bool
is_loopback host =
    str_eq host (codes "localhost") || str_eq host (codes "127.0.0.1") || str_eq host (codes "::1")

abbrev pub is_absolute : Url → Bool
is_absolute u =
    str_eq u.fragment [] && not (str_eq u.scheme []) && not (str_eq u.host []) && not u.has_user

abbrev pub then_add : Bytes → Outcome (List Bytes) → Outcome (List Bytes)
then_add item (done uris) = done (item ∷ uris)
then_add item (refused e) = refused e

abbrev pub or_none : Bytes → Bytes
or_none [] = codes "none"
or_none (c ∷ s) = c ∷ s

module _ (parse : Bytes → Option Url) (to_lower : Bytes → Bytes) where
  -- The switch on the scheme; none is to go on.
  unfoldable pub check_scheme : Url → Option Refusal
  check_scheme u =
      if str_eq u.scheme (codes "https")
      then none
      else if str_eq u.scheme (codes "http")
      then (if is_loopback (to_lower u.hostname) then none else some not_loopback)
      else some unknown_scheme

  unfoldable pub check_parsed : Option Url → Option Refusal
  unfolding check_scheme
  check_parsed none = some not_absolute
  check_parsed (some u) = if is_absolute u then check_scheme u else some not_absolute

  -- What one item is refused for.
  unfoldable pub check_uri : Bytes → Option Refusal
  unfolding check_parsed
  check_uri item =
      if str_eq item [] || ltb 2048 (length item)
      then some invalid_uri
      else check_parsed (parse item)

  -- The loop, with the items that it has seen.
  unfoldable pub check_uris : List Bytes → List Bytes → Outcome (List Bytes)
  unfolding check_uri
  check_uris seen [] = done []
  check_uris seen (item ∷ uris) =
      let rest = check_uris (item ∷ seen) uris in
      elim (check_uri item) [
        | some e ↦ refused e
        | none ↦ if any (str_eq item) seen then refused not_unique else then_add item rest
      ]

  -- ValidateRedirectURIs
  unfoldable pub validate_redirect_uris : List Bytes → Outcome (List Bytes)
  unfolding check_uris
  validate_redirect_uris uris =
      if ltb (length uris) 1 || ltb 10 (length uris)
      then refused invalid_count
      else check_uris [] uris

  module _ (digest : Bytes → Bytes) where
    unfoldable pub preregistered : Bytes → Bytes → ℕ → List Bytes → Client
    preregistered id secret now uris = record {
      client_id = id;
      redirect_uris = uris;
      auth_method = if str_eq secret [] then codes "none" else codes "client_secret_post";
      client_name = [];
      secret_digest = if str_eq secret [] then [] else digest secret;
      client_issued_at = now;
    }

    unfoldable pub add_validated :
        Bool → Bytes → Bytes → ℕ → Registry → Outcome (List Bytes) → Registry × Outcome Client
    unfolding preregistered set
    add_validated saves id secret now r (refused e) = (r, refused e)
    add_validated saves id secret now r (done uris) =
        let c = preregistered id secret now uris in
        (record { clients = set id c r.clients }, (if saves then done c else refused not_persisted))

    -- AddPreregistered: the client stays although it could not be saved.
    unfoldable pub add_preregistered :
        Bool → Bytes → List Bytes → Bytes → ℕ → Registry → Registry × Outcome Client
    unfolding add_validated validate_redirect_uris
    add_preregistered saves id uris secret now r =
        add_validated saves id secret now r (validate_redirect_uris uris)

    -- The loop that looks for an ID that is not in use; none while it still runs.
    unfoldable pub draw_id : List Bytes → List (Bytes × Client) → Option Bytes
    unfolding find
    draw_id [] clients = none
    draw_id (id ∷ ids) clients =
        let rest = draw_id ids clients in elim (find id clients) [ none ↦ some id | some _ ↦ rest ]

    unfoldable pub registered : Bytes → Bytes → Bytes → Bytes → ℕ → List Bytes → Client
    registered id secret method name now uris = record {
      client_id = id;
      redirect_uris = uris;
      auth_method = method;
      client_name = take 200 (trim_space name);
      secret_digest = if str_eq method (codes "none") then [] else digest secret;
      client_issued_at = now;
    }

    unfoldable pub store : Bool → Client → Registry → Registry × Outcome Client
    unfolding set delete
    store saves c r =
        let all_of = set c.client_id c r.clients in
        if saves
        then (record { clients = all_of }, done c)
        else (record { clients = delete c.client_id all_of }, refused not_persisted)

    unfoldable pub with_id :
        Bool
        → Bytes
        → Bytes
        → Bytes
        → ℕ
        → List Bytes
        → Registry
        → Option Bytes
        → Registry × Outcome Client
    unfolding store registered
    with_id saves secret method name now uris r none = (r, refused still_drawing)
    with_id saves secret method name now uris r (some id) =
        store saves (registered id secret method name now uris) r

    abbrev pub supported : Bytes → Bool
    supported method =
        str_eq method (codes "none")
        || str_eq method (codes "client_secret_post")
        || str_eq method (codes "client_secret_basic")

    unfoldable pub register_validated :
        Bool
        → List Bytes
        → Bytes
        → Bytes
        → Bytes
        → ℕ
        → Registry
        → Outcome (List Bytes)
        → Registry × Outcome Client
    unfolding with_id draw_id
    register_validated saves ids secret method name now r (refused e) = (r, refused e)
    register_validated saves ids secret method name now r (done uris) =
        if not (supported method)
        then (r, refused unsupported_auth)
        else if leb max_registered_clients (length r.clients)
        then (r, refused limit_reached)
        else with_id saves secret method name now uris r (draw_id ids r.clients)

    -- Register
    unfoldable pub register :
        Bool
        → List Bytes
        → List Bytes
        → Bytes
        → Bytes
        → Bytes
        → ℕ
        → Registry
        → Registry × Outcome Client
    unfolding register_validated validate_redirect_uris
    register saves ids uris secret method name now r =
        register_validated saves ids secret (or_none method) name now r
          (validate_redirect_uris uris)

-- AcceptsRedirect
unfoldable pub accepts_redirect : Bytes → Bytes → Registry → Bool
unfolding find
accepts_redirect id uri r = elim (find id r.clients) [
  | none ↦ false
  | some c ↦ any (λ u. str_eq u uri) c.redirect_uris
]

unfoldable pub authenticates_as : (Bytes → Bytes) → Bytes → Bytes → Option Client → Bool
authenticates_as digest secret method none = false
authenticates_as digest secret method (some c) =
    if not (str_eq c.auth_method method)
    then false
    else if str_eq c.auth_method (codes "none")
    then str_eq secret []
    else if str_eq c.secret_digest [] || str_eq secret []
    then false
    else str_eq c.secret_digest (digest secret)

-- Authenticates
unfoldable pub authenticates : (Bytes → Bytes) → Bytes → Bytes → Bytes → Registry → Bool
unfolding authenticates_as find
authenticates digest id secret method r = authenticates_as digest secret method (find id r.clients)
