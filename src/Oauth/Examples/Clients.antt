-- ===== src/Oauth/Examples/Clients.antt =====
-- One client, registered with a secret. Only https://app/back parses, and the digest is the text itself.
use mcpx.Base.{
  ◌≡◌, refl, true, false, Option, none, some, List, [], ◌∷◌, if◌then◌else◌, Bytes, codes,
  has_prefix, trim_space,
}
use mcpx.Oauth.Registry.{Url, Client, register, accepts_redirect, authenticates}
use mcpx.Oauth.Redirects.{IsProper, Call, preregistering, registering, run, accepted-IsProper}
use mcpx.Oauth.Credentials.{expected, register-authenticates}

abbrev url : Url
url = record {
  scheme = codes "https";
  host = codes "app";
  hostname = codes "app";
  fragment = [];
  has_user = false;
}

abbrev parse : Bytes → Option Url
parse s = if has_prefix s (codes "https://app/") then some url else none

abbrev same : Bytes → Bytes
same s = s

abbrev calls : List (Call parse same)
calls =
    preregistering true (codes "static") (codes "http://other" ∷ []) [] 3
    ∷ registering true (codes "app" ∷ []) (codes "https://app/back" ∷ []) (codes "secret")
        (codes "client_secret_post") [] 5
    ∷ []

abbrev client : Client
client = record {
  client_id = codes "app";
  redirect_uris = codes "https://app/back" ∷ [];
  auth_method = codes "client_secret_post";
  client_name = [];
  secret_digest = codes "secret";
  client_issued_at = 5;
}

accepted-IsProper_example : IsProper parse same (codes "https://app/back")
unfolding run accepts_redirect
accepted-IsProper_example =
    accepted-IsProper parse same same calls (codes "app") (codes "https://app/back") refl

register-authenticates_example :
    authenticates same
      (codes "app")
      (codes "guess")
      (codes "client_secret_post")
      (register parse same same true
        (codes "app" ∷ [])
        (codes "https://app/back" ∷ [])
        (codes "secret")
        (codes "client_secret_post")
        []
        5
        (record { clients = [] })).0
    ≡ expected same (codes "client_secret_post") (codes "secret") (codes "guess")
unfolding register trim_space
register-authenticates_example =
    register-authenticates parse same same true (codes "app" ∷ []) (codes "https://app/back" ∷ [])
      (codes "secret") (codes "client_secret_post") [] (codes "guess") 5 (record { clients = [] })
      client refl refl
