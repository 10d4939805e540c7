-- ===== src/Oauth/Server.antt =====
-- The state of internal/oauth/token.go, the authorization codes and the access tokens. Times are
-- nanoseconds; what a function reads of the clock is an argument, as are the random tokens.
use Prim.Native.Nat.{◌/◌}
use mcpx.Base.{
  ℕ, ◌+◌, ◌*◌, Bool, not, ◌&&◌, ◌||◌, Option, none, some, List, [], ◌∷◌, ◌++◌, reverse,
  if◌then◌else◌, ◌==◌, has_prefix, ltb, leb, length, Bytes, codes, str_eq,
}
use mcpx.Plan.Repository.{trim_suffix}
use mcpx.Oauth.Pkce.{valid_challenge, verify_s256}

pub record AuthCode : Type 0 where
  pub code_client : Bytes
  pub redirect_uri : Bytes
  pub code_challenge : Bytes
  pub code_resource : Bytes
  pub code_scope : Bytes
  pub code_expires_at : ℕ

pub record RefreshGrant : Type 0 where
  pub grant_client : Bytes
  pub grant_resource : Bytes
  pub grant_scope : Bytes
  pub grant_expires_at : ℕ

-- `file` is what the file of the refresh grants has; it stays as it is where `is_persistent` is false.
pub record Server : Type 0 where
  pub server_url : Bytes
  pub token_secret : Bytes
  pub token_ttl : ℕ
  pub pending : List (Bytes × AuthCode)
  pub refresh : List (Bytes × RefreshGrant)
  pub is_persistent : Bool
  pub file : List (Bytes × RefreshGrant)

pub data Failure : Type 0 where
  unsupported_method invalid_challenge invalid_redirect too_many_codes invalid_grant no_issuer
        no_secret not_signed not_saved still_drawing :
      Failure

pub data Result {ℓ} (A : Type ℓ) : Type ℓ where
  ok : A → Result A
  failed : Failure → Result A

abbrev pub second : ℕ
second = 1000000000

abbrev pub max_pending_codes : ℕ
max_pending_codes = 256

abbrev pub or_default : Bytes → Bytes
or_default [] = codes "mcp"
or_default (c ∷ s) = c ∷ s

-- delete(m, key)
unfoldable pub delete {ℓ} : {A : Type ℓ} → Bytes → List (Bytes × A) → List (Bytes × A)
delete key [] = []
delete key ((k, v) ∷ entries) =
    let rest = delete key entries in if str_eq k key then rest else (k, v) ∷ rest

-- m[key]
unfoldable pub find {ℓ} : {A : Type ℓ} → Bytes → List (Bytes × A) → Option A
find key [] = none
find key ((k, v) ∷ entries) = if str_eq k key then some v else find key entries

unfoldable pub set {ℓ} : {A : Type ℓ} → Bytes → A → List (Bytes × A) → List (Bytes × A)
unfolding delete
set key v entries = (key, v) ∷ delete key entries

unfoldable pub prune_codes : ℕ → List (Bytes × AuthCode) → List (Bytes × AuthCode)
prune_codes now [] = []
prune_codes now ((k, v) ∷ entries) =
    let rest = prune_codes now entries in if ltb v.code_expires_at now then rest else (k, v) ∷ rest

unfoldable pub new_code : Bytes → Bytes → Bytes → Bytes → Bytes → ℕ → AuthCode
new_code client redirect challenge resource scope later = record {
  code_client = client;
  redirect_uri = redirect;
  code_challenge = challenge;
  code_resource = resource;
  code_scope = or_default scope;
  code_expires_at = later + 300 * second;
}

-- IssueCode; `accepted` is what AcceptsClientRedirect says of the client and the URI.
unfoldable pub issue_code :
    Bool
    → Bytes
    → Bytes
    → Bytes
    → Bytes
    → Bytes
    → Bytes
    → Bytes
    → ℕ
    → ℕ
    → Server
    → Server × Result Bytes
unfolding prune_codes new_code set
issue_code accepted fresh client redirect challenge method resource scope now later s =
    if not (str_eq method []) && not (str_eq method (codes "S256"))
    then (s, failed unsupported_method)
    else if not (valid_challenge challenge)
    then (s, failed invalid_challenge)
    else if not accepted
    then (s, failed invalid_redirect)
    else let t = record s { pending = prune_codes now s.pending } in
      if leb max_pending_codes (length t.pending) then (t, failed too_many_codes) else (
        record t {
          pending = set fresh (new_code client redirect challenge resource scope later) t.pending;
        },
        ok fresh,
      )

-- The claims of an access token, with its times in seconds.
pub record Claims : Type 0 where
  pub issuer : Bytes
  pub audience : Bytes
  pub subject : Bytes
  pub issued_at : ℕ
  pub expires_at : ℕ

unfoldable pub trim_slash : Bytes → Bytes
trim_slash [] = []
trim_slash (c ∷ s) = let rest = trim_slash s in if str_eq rest [] && c == b'/' then [] else c ∷ rest

unfoldable pub issuer_from_resource : Bytes → Bytes
unfolding trim_slash trim_suffix
issuer_from_resource resource =
    let r = trim_slash resource in
    if has_prefix (reverse r) (reverse (codes "/mcp"))
    then trim_slash (trim_suffix r (codes "/mcp"))
    else r

unfoldable pub resource_url : Bytes → Bytes
unfolding trim_slash
resource_url issuer = trim_slash issuer ++ codes "/mcp"

-- EffectiveIssuer("")
unfoldable pub effective_issuer : Server → Bytes
effective_issuer s = s.server_url

abbrev pub or_else : Bytes → Bytes → Bytes
or_else [] other = other
or_else (c ∷ s) other = c ∷ s

-- What an exchange signs for: the resource, and the issuer.
unfoldable pub target : Server → Bytes → Bytes → Bytes × Bytes
unfolding effective_issuer issuer_from_resource resource_url
target s bound resource =
    let res = or_else resource bound in
    let issuer = or_else (effective_issuer s) (issuer_from_resource res) in
    (or_else res (resource_url issuer), issuer)

-- `sign` is the signature with HS256 of the JWT library; none is its error.
module _ (sign : Bytes → Claims → Option Bytes) where
  signed : Option Bytes → Result Bytes
  signed none = failed not_signed
  signed (some token) = ok token

  unfoldable pub create_access_token : Server → Bytes → Bytes → Bytes → ℕ → Result Bytes
  unfolding effective_issuer resource_url signed
  create_access_token s client aud iss now =
      if str_eq s.token_secret []
      then failed no_secret
      else let from = or_else iss (effective_issuer s) in
        signed (
          sign s.token_secret (record {
            issuer = from;
            audience = or_else aud (resource_url from);
            subject = client;
            issued_at = now / second;
            expires_at = (now + s.token_ttl * second) / second;
          }))

  unfoldable pub mint : Server → Bytes → Bytes × Bytes → ℕ → Result Bytes
  unfolding create_access_token
  mint s client (res, iss) now =
      if str_eq iss [] then failed no_issuer else create_access_token s client res iss now

  -- The tests of ExchangeCode.
  unfoldable pub redeem :
      (Bytes → Bytes)
      → Option AuthCode
      → Bytes
      → Bytes
      → Bytes
      → Bytes
      → ℕ
      → ℕ
      → Server
      → Result Bytes
  unfolding mint target verify_s256
  redeem s256 none redirect client verifier resource now later s = failed invalid_grant
  redeem s256 (some c) redirect client verifier resource now later s =
      if ltb c.code_expires_at now
      then failed invalid_grant
      else if not (str_eq c.code_client client) || not (str_eq c.redirect_uri redirect)
      then failed invalid_grant
      else if not (verify_s256 s256 verifier c.code_challenge)
      then failed invalid_grant
      else mint s client (target s c.code_resource resource) later

  -- ExchangeCode: the code is gone whatever the tests say.
  unfoldable pub exchange_code :
      (Bytes → Bytes)
      → Bytes
      → Bytes
      → Bytes
      → Bytes
      → Bytes
      → ℕ
      → ℕ
      → Server
      → Server × Result Bytes
  unfolding redeem delete find
  exchange_code s256 code redirect client verifier resource now later s = (
    record s { pending = delete code s.pending },
    redeem s256 (find code s.pending) redirect client verifier resource now later s,
  )
