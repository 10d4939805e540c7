-- ===== src/Oauth/Examples.antt =====
-- A code that is exchanged twice, and a refresh token that is used twice. The hashes are the identity,
-- but for an empty text.
mod Clients
mod Reload
use mcpx.Base.{
  ◌+◌, ◌≤◌, ◌≡◌, refl, true, false, Option, some, List, [], ◌∷◌, Bytes, codes, str_eq, arith,
}
use mcpx.Oauth.Server.{Server, Claims}
use mcpx.Oauth.Refresh.{is_fine, is_locked}
use mcpx.Oauth.Calls.{
  Call, issuing, exchanging, granting, rotating, redeems, issues, replaces, grants, total, run,
}
use mcpx.Oauth.Entries.{entries_of}
use mcpx.Oauth.Once.{code_redeemed_once, token_replaced_once}
use mcpx.Oauth.Backed.{AllBacked, access_backed}
use mcpx.Oauth.Bounded.{Bounded, run-Bounded}

abbrev verifier : Bytes
verifier = codes "0123456789012345678901234567890123456789012"

abbrev s256 : Bytes → Bytes
s256 v = v

abbrev key_of : Bytes → Bytes
key_of token = 1 ∷ token

abbrev key-filled : (token : Bytes) → str_eq (key_of token) [] ≡ false
key-filled token = refl

abbrev sign : Bytes → Claims → Option Bytes
sign secret claims = some claims.subject

abbrev empty : Server
empty = record {
  server_url = codes "https://host";
  token_secret = codes "secret";
  token_ttl = 86400;
  pending = [];
  refresh = [];
  is_persistent = true;
  file = [];
}

abbrev calls : List Call
calls =
    issuing true (codes "code") (codes "app") (codes "https://app/back") verifier (codes "S256") []
      [] 5 6
    ∷ exchanging (codes "code") (codes "https://app/back") (codes "app") verifier [] 7 8
    ∷ exchanging (codes "code") (codes "https://app/back") (codes "app") verifier [] 9 10
    ∷ granting is_fine (codes "first" ∷ []) (codes "app") [] [] 11 12
    ∷ rotating is_locked (codes "second" ∷ []) (codes "first") (codes "app") [] 13 14
    ∷ rotating is_fine (codes "second" ∷ codes "third" ∷ []) (codes "first") (codes "app") [] 15 16
    ∷ rotating is_fine (codes "fourth" ∷ []) (codes "first") (codes "app") [] 17 18
    ∷ []

code_redeemed_once_example :
    total s256 key_of sign (redeems (codes "code")) calls empty
    ≤ total s256 key_of sign (λ c r. issues (codes "code") r) calls empty
      + entries_of (codes "code") empty.pending
code_redeemed_once_example = code_redeemed_once s256 key_of sign (codes "code") calls empty

token_replaced_once_example :
    total s256 key_of sign (replaces key_of (key_of (codes "first"))) calls empty
    ≤ total s256 key_of sign (λ c r. grants key_of (key_of (codes "first")) r) calls empty
      + entries_of (key_of (codes "first")) empty.refresh
token_replaced_once_example =
    token_replaced_once s256 key_of sign (key_of (codes "first")) calls empty

access_backed_example : AllBacked s256 key_of sign [] calls empty
access_backed_example = access_backed s256 key_of sign calls empty refl

run-Bounded_example : Bounded (run s256 key_of sign calls empty)
run-Bounded_example =
    run-Bounded s256 key_of sign key-filled calls empty (omega arith, (omega arith, tt))

one_is_redeemed : total s256 key_of sign (redeems (codes "code")) calls empty ≡ 1
unfolding total redeems
one_is_redeemed = refl

one_is_replaced : total s256 key_of sign (replaces key_of (key_of (codes "first"))) calls empty ≡ 1
unfolding total replaces
one_is_replaced = refl
