-- ===== src/Oauth/Once.antt =====
-- How often a code is redeemed and a refresh token is replaced.
use mcpx.Base.{
  ℕ, ◌+◌, ◌≤◌, ◌≡◌, refl, ap, ◌∙◌, Bool, Option, none, some, List, [], ◌∷◌, ltb, Bool-cases, inl,
  inr, arith, Bytes, str_eq,
}
use mcpx.Oauth.Server.{
  AuthCode, RefreshGrant, Server, Claims, Result, ok, failed, delete, find, issue_code,
  exchange_code, redeem,
}
use mcpx.Oauth.Refresh.{
  Disk, prune_refresh, evict, pairs, replace, rotate, issue_refresh_token, exchange_refresh_token,
}
use mcpx.Oauth.Calls.{
  Call, issuing, exchanging, granting, rotating, of_access, of_pair, one_if, call, redeems, issues,
  replaces, grants, total,
}
use mcpx.Oauth.Entries.{entries_of, entries_of-delete, found_entry, delete_counts}
use mcpx.Oauth.Steps.{issue_step, install_pending, granting_step, taken, rotate_step}

at_most_one :
    (code key redirect client verifier resource : Bytes) (now later : ℕ) (r : Result Bytes)
    (m : List (Bytes × AuthCode))
    → one_if (str_eq key code) + entries_of code (delete key m) ≤ entries_of code m
    → redeems code (exchanging key redirect client verifier resource now later) (of_access r)
        + entries_of code (delete key m)
      ≤ entries_of code m
unfolding redeems
at_most_one code key redirect client verifier resource now later (ok token) m h = h
at_most_one code key redirect client verifier resource now later (failed e) m h = omega arith

exchange_step :
    (s256 : Bytes → Bytes) (sign : Bytes → Claims → Option Bytes)
    (code key redirect client verifier resource : Bytes) (now later : ℕ) (s : Server)
    (o : Option AuthCode)
    → find key s.pending ≡ o
    → redeems code
          (exchanging key redirect client verifier resource now later)
          (of_access (redeem sign s256 o redirect client verifier resource now later s))
        + entries_of code (delete key s.pending)
      ≤ entries_of code s.pending
unfolding redeem redeems
exchange_step s256 sign code key redirect client verifier resource now later s none e =
    let less = entries_of-delete code key s.pending in omega arith
exchange_step s256 sign code key redirect client verifier resource now later s (some c) e =
    let counts = delete_counts code key s.pending (found_entry key c s.pending e) in
    at_most_one code key redirect client verifier resource now later
      (redeem sign s256 (some c) redirect client verifier resource now later s) s.pending counts

pub pairs_state :
    (key_of : Bytes → Bytes) (access : Bytes) (x : Server × Result Bytes)
    → (pairs key_of access x).0 ≡ x.0
unfolding pairs
pairs_state key_of access (s, ok next) = refl
pairs_state key_of access (s, failed e) = refl

replace_pending :
    (key_of : Bytes → Bytes) (disk : Disk) (tokens : List Bytes)
    (token client resource scope : Bytes) (later : ℕ) (s : Server) (r : Result Bytes)
    → (replace key_of disk tokens token client resource scope later s r).0.pending ≡ s.pending
unfolding replace
replace_pending key_of disk tokens token client resource scope later s (failed e) = refl
replace_pending key_of disk tokens token client resource scope later s (ok access) =
    ap (λ (t : Server). t.pending) (pairs_state key_of access _)
    ∙ install_pending key_of disk s.refresh _ _
        (record s { refresh = delete (key_of token) s.refresh })

pub rotate_pending :
    (key_of : Bytes → Bytes) (sign : Bytes → Claims → Option Bytes) (disk : Disk)
    (tokens : List Bytes) (token client resource : Bytes) (now later : ℕ) (s : Server)
    (o : Option RefreshGrant)
    → (rotate key_of sign disk tokens token client resource now later s o).0.pending ≡ s.pending
unfolding rotate
rotate_pending key_of sign disk tokens token client resource now later s none = refl
rotate_pending key_of sign disk tokens token client resource now later s (some g) =
    elim (Bool-cases (ltb g.grant_expires_at now)) [
      | inl m ↦ rw (m) refl
      | inr m ↦ rw (m) (elim (Bool-cases (str_eq g.grant_client client)) [
        | inl n ↦ rw (n) (replace_pending key_of disk tokens token client _ _ later s _)
        | inr n ↦ rw (n) refl
      ])
    ]

pub granting_pending :
    (key_of : Bytes → Bytes) (disk : Disk) (tokens : List Bytes) (client resource scope : Bytes)
    (now later : ℕ) (s : Server)
    → (issue_refresh_token key_of disk tokens client resource scope now later s).0.pending
      ≡ s.pending
unfolding issue_refresh_token
granting_pending key_of disk tokens client resource scope now later s =
    install_pending key_of disk s.refresh _ _
      (record s { refresh = evict (prune_refresh now s.refresh) })

replaces-taken :
    (key_of : Bytes → Bytes) (key : Bytes) (disk : Disk) (tokens : List Bytes)
    (token client resource : Bytes) (now later : ℕ) (r : Result (Bytes × Bytes))
    → replaces key_of key (rotating disk tokens token client resource now later) (of_pair r)
      ≡ taken key (key_of token) r
unfolding replaces
replaces-taken key_of key disk tokens token client resource now later (ok pair) = refl
replaces-taken key_of key disk tokens token client resource now later (failed e) = refl

pub issue_refresh :
    (accepted : Bool) (fresh client redirect challenge method resource scope : Bytes)
    (now later : ℕ) (s : Server)
    → (issue_code accepted fresh client redirect challenge method resource scope now later
        s).0.refresh
      ≡ s.refresh
unfolding issue_code
issue_refresh accepted fresh client redirect challenge method resource scope now later s =
    ground arith

module _ (s256 key_of : Bytes → Bytes) (sign : Bytes → Claims → Option Bytes) where
  code_step :
      (code : Bytes) (c : Call) (s : Server)
      → let (t, r) = call s256 key_of sign c s in
        redeems code c r + entries_of code t.pending ≤ issues code r + entries_of code s.pending
  unfolding call redeems issues exchange_code issue_refresh_token exchange_refresh_token
  code_step code (issuing accepted fresh client redirect challenge method resource scope now later)
        s =
      let step =
        issue_step code accepted fresh client redirect challenge method resource scope now later
          s in
      omega arith
  code_step code (exchanging key redirect client verifier resource now later) s =
      let step =
        exchange_step s256 sign code key redirect client verifier resource now later s
          (find key s.pending) refl in
      omega arith
  code_step code (granting disk tokens client resource scope now later) s =
      let same =
        ap (entries_of code)
          (granting_pending key_of disk tokens client resource scope now later s) in
      omega arith
  code_step code (rotating disk tokens token client resource now later) s =
      let same = ap (entries_of code) (
        rotate_pending key_of sign disk tokens token client resource now later s
          (find (key_of token) s.refresh)) in
      omega arith

  token_step :
      (key : Bytes) (c : Call) (s : Server)
      → let (t, r) = call s256 key_of sign c s in
        replaces key_of key c r + entries_of key t.refresh
        ≤ grants key_of key r + entries_of key s.refresh
  unfolding call exchange_code exchange_refresh_token issue_refresh_token grants replaces
  token_step key (issuing accepted fresh client redirect challenge method resource scope now later)
        s =
      let same = ap (entries_of key) (
        issue_refresh accepted fresh client redirect challenge method resource scope now later s) in
      omega arith
  token_step key (exchanging k redirect client verifier resource now later) s = omega arith
  token_step key (granting disk tokens client resource scope now later) s =
      let step = granting_step key_of key disk tokens client resource scope now later s in
      omega arith
  token_step key (rotating disk tokens token client resource now later) s =
      let step =
        rotate_step key_of sign key disk tokens token client resource now later s
          (find (key_of token) s.refresh) refl in
      let same =
        replaces-taken key_of key disk tokens token client resource now later
          (exchange_refresh_token key_of sign disk tokens token client resource now later s).1 in
      omega arith

  -- Over any calls on a server, an authorization code is redeemed for an access token at most as often
  -- as IssueCode answered it and it was pending at first: a code that was issued once is redeemed once at most.
  pub code_redeemed_once :
      (code : Bytes) (calls : List Call) (s : Server)
      → total s256 key_of sign (redeems code) calls s
        ≤ total s256 key_of sign (λ c r. issues code r) calls s + entries_of code s.pending
  unfolding total
  code_redeemed_once code [] s = omega arith
  code_redeemed_once code (c ∷ calls) s =
      let step = code_step code c s in
      let rest = code_redeemed_once code calls (call s256 key_of sign c s).0 in omega arith

  -- Over any calls on a server, whatever the disk does, a refresh token is replaced by another one at
  -- most as often as a token of its hash was handed out and was valid at first: a token that was handed
  -- out once is replaced once at most.
  pub token_replaced_once :
      (key : Bytes) (calls : List Call) (s : Server)
      → total s256 key_of sign (replaces key_of key) calls s
        ≤ total s256 key_of sign (λ c r. grants key_of key r) calls s + entries_of key s.refresh
  unfolding total
  token_replaced_once key [] s = omega arith
  token_replaced_once key (c ∷ calls) s =
      let step = token_step key c s in
      let rest = token_replaced_once key calls (call s256 key_of sign c s).0 in omega arith
