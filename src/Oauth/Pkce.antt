-- ===== src/Oauth/Pkce.antt =====
-- internal/oauth/pkce.go. The encoded hash of a verifier, base64url of SHA-256, is the parameter `s256`.
use mcpx.Base.{ℕ, Bool, ◌&&◌, ◌||◌, ◌==◌, leb, length, all, Bytes, str_eq}

abbrev pub in_range : ℕ → ℕ → ℕ → Bool
in_range low high c = leb low c && leb c high

-- [A-Za-z0-9_-]
abbrev pub is_url_safe : ℕ → Bool
is_url_safe c =
    in_range b'A' b'Z' c || in_range b'a' b'z' c || in_range b'0' b'9' c || c == b'_' || c == b'-'

-- [A-Za-z0-9\-._~]
abbrev pub is_unreserved : ℕ → Bool
is_unreserved c = is_url_safe c || c == b'.' || c == b'~'

unfoldable pub valid_challenge : Bytes → Bool
valid_challenge challenge = length challenge == 43 && all is_url_safe challenge

unfoldable pub valid_verifier : Bytes → Bool
valid_verifier verifier = in_range 43 128 (length verifier) && all is_unreserved verifier

unfoldable pub verify_s256 : (Bytes → Bytes) → Bytes → Bytes → Bool
unfolding valid_challenge valid_verifier
verify_s256 s256 verifier challenge =
    valid_verifier verifier && valid_challenge challenge && str_eq (s256 verifier) challenge
