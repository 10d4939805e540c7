-- ===== src/Oauth/Bounded.antt =====
-- How many codes and refresh tokens the server keeps.
use mcpx.Base.{
  ℕ, ◌≤◌, ◌<◌, ◌≡◌, refl, Bool, true, false, Option, none, some, List, [], ◌∷◌, ltb, length,
  Bool-cases, inl, inr, arith, Bytes, str_eq, All,
}
use mcpx.Oauth.Server.{
  RefreshGrant, Server, Claims, Result, ok, failed, delete, find, set, exchange_code,
  max_pending_codes,
}
use mcpx.Oauth.Refresh.{
  Disk, save_refresh, prune_refresh, evict, install, or_rollback, replace, rotate,
  exchange_refresh_token, issue_refresh_token, max_refresh_tokens,
}
use mcpx.Oauth.Calls.{Call, issuing, exchanging, granting, rotating, call, run}
use mcpx.Oauth.Once.{granting_pending, rotate_pending, issue_refresh, pairs_state}
use mcpx.Oauth.Steps.{save_keeps}
use mcpx.Oauth.Backed.{All-delete}
use mcpx.Oauth.Eviction.{
  length-delete, HasKey, length-delete_there, find-HasKey, IsKeyed, evict_makes_room, All-evict,
  All-prune_refresh, issue_bounded,
}

-- The bounds of both maps; the second part is kept for the eviction.
abbrev Fits : List (Bytes × RefreshGrant) → Type 0
Fits m = (length m ≤ max_refresh_tokens) × All IsKeyed m

abbrev pub Bounded : Server → Type 0
Bounded s = (length s.pending ≤ max_pending_codes) × Fits s.refresh

rollback-Fits :
    (before m : List (Bytes × RefreshGrant)) (token : Bytes) (x : Server × Bool)
    → x.0.refresh ≡ m
    → Fits before
    → Fits m
    → Fits (or_rollback before token x).0.refresh
unfolding or_rollback
rollback-Fits before m token (s, true) e h h' = rw (e) h'
rollback-Fits before m token (s, false) e h h' = h

install-Fits :
    (key_of : Bytes → Bytes) (disk : Disk) (before : List (Bytes × RefreshGrant)) (g : RefreshGrant)
    (o : Option Bytes) (s : Server)
    → ((token : Bytes) → str_eq (key_of token) [] ≡ false)
    → Fits before
    → length s.refresh < max_refresh_tokens
    → All IsKeyed s.refresh
    → Fits (install key_of disk before g o s).0.refresh
unfolding install set
install-Fits key_of disk before g none s hash h few keyed = (omega arith, keyed)
install-Fits key_of disk before g (some token) s hash h few keyed =
    let t : Server = record s { refresh = set (key_of token) g s.refresh } in
    let less = length-delete (key_of token) s.refresh in
    rollback-Fits before t.refresh token (save_refresh disk t) (save_keeps disk t).0 h
      (omega arith, (hash token, All-delete IsKeyed (key_of token) s.refresh keyed))

granting-Fits :
    (key_of : Bytes → Bytes) (disk : Disk) (tokens : List Bytes) (client resource scope : Bytes)
    (now later : ℕ) (s : Server)
    → ((token : Bytes) → str_eq (key_of token) [] ≡ false)
    → Fits s.refresh
    → Fits (issue_refresh_token key_of disk tokens client resource scope now later s).0.refresh
unfolding issue_refresh_token
granting-Fits key_of disk tokens client resource scope now later s hash (few, keyed) =
    let (rest, fewer) = All-prune_refresh IsKeyed now s.refresh keyed in
    let pruned = prune_refresh now s.refresh in
    install-Fits key_of disk s.refresh _ _ (record s { refresh = evict pruned }) hash (few, keyed)
      (evict_makes_room pruned rest (omega arith)) (All-evict pruned rest)

replace-Fits :
    (key_of : Bytes → Bytes) (disk : Disk) (tokens : List Bytes)
    (token client resource scope : Bytes) (later : ℕ) (s : Server) (r : Result Bytes)
    → ((t : Bytes) → str_eq (key_of t) [] ≡ false)
    → HasKey (key_of token) s.refresh
    → Fits s.refresh
    → Fits (replace key_of disk tokens token client resource scope later s r).0.refresh
unfolding replace
replace-Fits key_of disk tokens token client resource scope later s (failed e) hash there h = h
replace-Fits key_of disk tokens token client resource scope later s (ok access) hash there
      (few, keyed) =
    let less = length-delete_there (key_of token) s.refresh there in
    rw (pairs_state key_of access _) (
      install-Fits key_of disk s.refresh _ _
        (record s { refresh = delete (key_of token) s.refresh }) hash (few, keyed) (omega arith)
        (All-delete IsKeyed (key_of token) s.refresh keyed))

rotate-Fits :
    (key_of : Bytes → Bytes) (sign : Bytes → Claims → Option Bytes) (disk : Disk)
    (tokens : List Bytes) (token client resource : Bytes) (now later : ℕ) (s : Server)
    (o : Option RefreshGrant)
    → ((t : Bytes) → str_eq (key_of t) [] ≡ false)
    → find (key_of token) s.refresh ≡ o
    → Fits s.refresh
    → Fits (rotate key_of sign disk tokens token client resource now later s o).0.refresh
unfolding rotate
rotate-Fits key_of sign disk tokens token client resource now later s none hash e h = h
rotate-Fits key_of sign disk tokens token client resource now later s (some g) hash e h =
    let there = find-HasKey (key_of token) g s.refresh e in
    elim (Bool-cases (ltb g.grant_expires_at now)) [
      | inl m ↦ rw (m) h
      | inr m ↦ rw (m) (elim (Bool-cases (str_eq g.grant_client client)) [
        | inl n ↦ rw (n) (replace-Fits key_of disk tokens token client _ _ later s _ hash there h)
        | inr n ↦ rw (n) h
      ])
    ]

module _ (s256 key_of : Bytes → Bytes) (sign : Bytes → Claims → Option Bytes)
    (hash : (token : Bytes) → str_eq (key_of token) [] ≡ false) where
  call-Bounded : (c : Call) (s : Server) → Bounded s → Bounded (call s256 key_of sign c s).0
  unfolding call exchange_code exchange_refresh_token
  call-Bounded (issuing accepted fresh client redirect challenge method resource scope now later) s
        (few, h) =
      (
        issue_bounded accepted fresh client redirect challenge method resource scope now later s
            few,
        rw
            (issue_refresh accepted fresh client redirect challenge method resource scope now later
              s)
            h,
      )
  call-Bounded (exchanging key redirect client verifier resource now later) s (few, h) =
      let less = length-delete key s.pending in (omega arith, h)
  call-Bounded (granting disk tokens client resource scope now later) s (few, h) = (
    rw (granting_pending key_of disk tokens client resource scope now later s) few,
    granting-Fits key_of disk tokens client resource scope now later s hash h,
  )
  call-Bounded (rotating disk tokens token client resource now later) s (few, h) = (
    rw
        (rotate_pending key_of sign disk tokens token client resource now later s
          (find (key_of token) s.refresh))
        few,
    rotate-Fits key_of sign disk tokens token client resource now later s
        (find (key_of token) s.refresh) hash refl h,
  )

  -- Where no hash of a token is empty, any calls on a server keep it at no more than 256 pending codes and
  -- 4096 refresh tokens, whatever the disk does, and no key of the refresh tokens is empty.
  pub run-Bounded :
      (calls : List Call) (s : Server) → Bounded s → Bounded (run s256 key_of sign calls s)
  unfolding run
  run-Bounded [] s h = h
  run-Bounded (c ∷ calls) s h = run-Bounded calls (call s256 key_of sign c s).0 (call-Bounded c s h)
