-- ===== src/Oauth/Calls.antt =====
-- The calls of internal/oauth/token.go that change the server's state, one behind another.
use mcpx.Base.{ℕ, ◌+◌, Bool, true, false, Option, List, [], ◌∷◌, Bytes, str_eq}
use mcpx.Oauth.Server.{Server, Claims, Result, ok, issue_code, exchange_code}
use mcpx.Oauth.Refresh.{Disk, issue_refresh_token, exchange_refresh_token}

-- A call, with what the clock, the random source and the disk give it.
pub data Call : Type 0 where
  issuing :
      (accepted : Bool) (fresh client redirect challenge method resource scope : Bytes)
      (now later : ℕ)
      → Call
  exchanging : (code redirect client verifier resource : Bytes) (now later : ℕ) → Call
  granting :
      (disk : Disk) (tokens : List Bytes) (client resource scope : Bytes) (now later : ℕ) → Call
  rotating :
      (disk : Disk) (tokens : List Bytes) (token client resource : Bytes) (now later : ℕ) → Call

pub data Answer : Type 0 where
  of_code : Result Bytes → Answer
  of_access : Result Bytes → Answer
  of_refresh : Result Bytes → Answer
  of_pair : Result (Bytes × Bytes) → Answer

abbrev pub one_if : Bool → ℕ
one_if true = 1
one_if false = 0

-- Whether the call redeemed the code, or its answer is the code.
unfoldable pub redeems : Bytes → Call → Answer → ℕ
redeems code (exchanging c _ _ _ _ _ _) (of_access (ok _)) = one_if (str_eq c code)
redeems code _ _ = 0

unfoldable pub issues : Bytes → Answer → ℕ
issues code (of_code (ok c)) = one_if (str_eq c code)
issues code _ = 0

module _ (key_of : Bytes → Bytes) where
  -- Whether the call replaced a token of the key, or its answer has one of the key.
  unfoldable pub replaces : Bytes → Call → Answer → ℕ
  replaces key (rotating _ _ token _ _ _ _) (of_pair (ok _)) = one_if (str_eq (key_of token) key)
  replaces key _ _ = 0

  unfoldable pub grants : Bytes → Answer → ℕ
  grants key (of_refresh (ok token)) = one_if (str_eq (key_of token) key)
  grants key (of_pair (ok (access, token))) = one_if (str_eq (key_of token) key)
  grants key _ = 0

module _ (s256 key_of : Bytes → Bytes) (sign : Bytes → Claims → Option Bytes) where
  unfoldable pub call : Call → Server → Server × Answer
  unfolding issue_code exchange_code issue_refresh_token exchange_refresh_token
  call (issuing accepted fresh client redirect challenge method resource scope now later) s =
      let (t, r) =
        issue_code accepted fresh client redirect challenge method resource scope now later s in
      (t, of_code r)
  call (exchanging code redirect client verifier resource now later) s =
      let (t, r) = exchange_code sign s256 code redirect client verifier resource now later s in
      (t, of_access r)
  call (granting disk tokens client resource scope now later) s =
      let (t, r) = issue_refresh_token key_of disk tokens client resource scope now later s in
      (t, of_refresh r)
  call (rotating disk tokens token client resource now later) s =
      let (t, r) =
        exchange_refresh_token key_of sign disk tokens token client resource now later s in
      (t, of_pair r)

  -- The sum over the calls.
  unfoldable pub total : (Call → Answer → ℕ) → List Call → Server → ℕ
  unfolding call
  total f [] s = 0
  total f (c ∷ calls) s = let (t, r) = call c s in f c r + total f calls t

  -- The server behind the calls.
  unfoldable pub run : List Call → Server → Server
  unfolding call
  run [] s = s
  run (c ∷ calls) s = run calls (call c s).0
