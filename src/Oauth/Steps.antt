-- ===== src/Oauth/Steps.antt =====
-- What installing a refresh token does to the maps.
use mcpx.Base.{
  ℕ, ◌+◌, ◌≤◌, ◌≡◌, refl, ◌∙◌, Bool, true, false, Option, none, some, List, if◌then◌else◌, ltb,
  Bool-cases, inl, inr, arith, Bytes, str_eq,
}
use mcpx.Oauth.Server.{
  RefreshGrant, Server, Claims, Result, ok, failed, delete, find, set, prune_codes, new_code,
  issue_code,
}
use mcpx.Oauth.Refresh.{
  Disk, is_fine, is_full, is_locked, write_refresh, save_refresh, prune_refresh, evict, install,
  or_rollback, pairs, replace, rotate, issue_refresh_token,
}
use mcpx.Oauth.Calls.{of_code, of_refresh, of_pair, one_if, issues, grants}
use mcpx.Oauth.Entries.{
  entries_of, entries_of-delete, entries_of-set, found_entry, entries_of-prune_codes,
  entries_of-prune_refresh, entries_of-evict, delete_counts,
}

pub issue_step :
    (code : Bytes) (accepted : Bool) (fresh client redirect challenge method resource scope : Bytes)
    (now later : ℕ) (s : Server)
    → let (t, r) =
        issue_code accepted fresh client redirect challenge method resource scope now later s in
      entries_of code t.pending ≤ issues code (of_code r) + entries_of code s.pending
unfolding issue_code issues
issue_step code accepted fresh client redirect challenge method resource scope now later s =
    let pruned = entries_of-prune_codes code now s.pending in
    let added =
      entries_of-set code fresh (new_code client redirect challenge resource scope later)
        (prune_codes now s.pending) in
    ground arith

write_keeps :
    (disk : Disk) (s : Server)
    → ((write_refresh disk s).0.refresh ≡ s.refresh)
      × ((write_refresh disk s).0.pending ≡ s.pending)
unfolding write_refresh
write_keeps is_fine s = (refl, refl)
write_keeps is_full s = (refl, refl)
write_keeps is_locked s = (refl, refl)

save_if_keeps :
    (disk : Disk) (s : Server) (b : Bool)
    → let t : Server × Bool = if b then write_refresh disk s else (s, true) in
      (t.0.refresh ≡ s.refresh) × (t.0.pending ≡ s.pending)
save_if_keeps disk s true = write_keeps disk s
save_if_keeps disk s false = (refl, refl)

pub save_keeps :
    (disk : Disk) (s : Server)
    → ((save_refresh disk s).0.refresh ≡ s.refresh) × ((save_refresh disk s).0.pending ≡ s.pending)
unfolding save_refresh
save_keeps disk s = save_if_keeps disk s s.is_persistent

rollback_pending :
    (before : List (Bytes × RefreshGrant)) (token : Bytes) (x : Server × Bool)
    → (or_rollback before token x).0.pending ≡ x.0.pending
unfolding or_rollback
rollback_pending before token (s, true) = refl
rollback_pending before token (s, false) = refl

pub install_pending :
    (key_of : Bytes → Bytes) (disk : Disk) (before : List (Bytes × RefreshGrant)) (g : RefreshGrant)
    (o : Option Bytes) (s : Server)
    → (install key_of disk before g o s).0.pending ≡ s.pending
unfolding install
install_pending key_of disk before g none s = refl
install_pending key_of disk before g (some token) s =
    let t : Server = record s { refresh = set (key_of token) g s.refresh } in
    rollback_pending before token (save_refresh disk t) ∙ (save_keeps disk t).1

rollback_entries :
    (key_of : Bytes → Bytes) (key token : Bytes) (before m : List (Bytes × RefreshGrant))
    (x : Server × Bool)
    → x.0.refresh ≡ m
    → entries_of key m ≤ one_if (str_eq (key_of token) key) + entries_of key before
    → entries_of key (or_rollback before token x).0.refresh
      ≤ grants key_of key (of_refresh (or_rollback before token x).1) + entries_of key before
unfolding or_rollback grants
rollback_entries key_of key token before m (s, true) e h = rw (e) h
rollback_entries key_of key token before m (s, false) e h = omega arith

-- The first summand is there only if the answer is a token.
install_entries :
    (key_of : Bytes → Bytes) (key : Bytes) (disk : Disk) (before : List (Bytes × RefreshGrant))
    (g : RefreshGrant) (o : Option Bytes) (s : Server)
    → entries_of key s.refresh ≤ entries_of key before
    → entries_of key (install key_of disk before g o s).0.refresh
      ≤ grants key_of key (of_refresh (install key_of disk before g o s).1) + entries_of key before
unfolding install grants
install_entries key_of key disk before g none s h = omega arith
install_entries key_of key disk before g (some token) s h =
    let t : Server = record s { refresh = set (key_of token) g s.refresh } in
    let added = entries_of-set key (key_of token) g s.refresh in
    rollback_entries key_of key token before t.refresh (save_refresh disk t) (save_keeps disk t).0
      (omega arith)

pub granting_step :
    (key_of : Bytes → Bytes) (key : Bytes) (disk : Disk) (tokens : List Bytes)
    (client resource scope : Bytes) (now later : ℕ) (s : Server)
    → let (t, r) = issue_refresh_token key_of disk tokens client resource scope now later s in
      entries_of key t.refresh ≤ grants key_of key (of_refresh r) + entries_of key s.refresh
unfolding issue_refresh_token
granting_step key_of key disk tokens client resource scope now later s =
    let pruned = entries_of-prune_refresh key now s.refresh in
    let evicted = entries_of-evict key (prune_refresh now s.refresh) in
    install_entries key_of key disk s.refresh _ _
      (record s { refresh = evict (prune_refresh now s.refresh) }) (omega arith)

-- A success takes the entry away: it was there.
abbrev pub taken : Bytes → Bytes → Result (Bytes × Bytes) → ℕ
taken key k (ok pair) = one_if (str_eq k key)
taken key k (failed e) = 0

rollback_rotates :
    (key_of : Bytes → Bytes) (key k access token : Bytes) (before m : List (Bytes × RefreshGrant))
    (x : Server × Bool)
    → x.0.refresh ≡ m
    → one_if (str_eq k key) + entries_of key m
      ≤ one_if (str_eq (key_of token) key) + entries_of key before
    → let (t, r) = pairs key_of access (or_rollback before token x) in
      taken key k r + entries_of key t.refresh
      ≤ grants key_of key (of_pair r) + entries_of key before
unfolding or_rollback grants pairs
rollback_rotates key_of key k access token before m (s, true) e h = rw (e) h
rollback_rotates key_of key k access token before m (s, false) e h = omega arith

install_rotates :
    (key_of : Bytes → Bytes) (key k access : Bytes) (disk : Disk) (g : RefreshGrant)
    (o : Option Bytes) (s : Server)
    → 1 ≤ entries_of k s.refresh
    → let (t, r) =
        pairs key_of access
          (install key_of disk s.refresh g o (record s { refresh = delete k s.refresh })) in
      taken key k r + entries_of key t.refresh
      ≤ grants key_of key (of_pair r) + entries_of key s.refresh
unfolding install grants pairs
install_rotates key_of key k access disk g none s h =
    let less = entries_of-delete key k s.refresh in omega arith
install_rotates key_of key k access disk g (some token) s h =
    let t : Server = record s { refresh = set (key_of token) g (delete k s.refresh) } in
    let added = entries_of-set key (key_of token) g (delete k s.refresh) in
    let gone = delete_counts key k s.refresh h in
    rollback_rotates key_of key k access token s.refresh t.refresh (save_refresh disk t)
      (save_keeps disk t).0 (omega arith)

replace_step :
    (key_of : Bytes → Bytes) (key : Bytes) (disk : Disk) (tokens : List Bytes)
    (token client resource scope : Bytes) (later : ℕ) (s : Server) (r : Result Bytes)
    → 1 ≤ entries_of (key_of token) s.refresh
    → let (t, r) = replace key_of disk tokens token client resource scope later s r in
      taken key (key_of token) r + entries_of key t.refresh
      ≤ grants key_of key (of_pair r) + entries_of key s.refresh
unfolding replace
replace_step key_of key disk tokens token client resource scope later s (failed e) h = omega arith
replace_step key_of key disk tokens token client resource scope later s (ok access) h =
    install_rotates key_of key (key_of token) access disk _ _ s h

pub rotate_step :
    (key_of : Bytes → Bytes) (sign : Bytes → Claims → Option Bytes) (key : Bytes) (disk : Disk)
    (tokens : List Bytes) (token client resource : Bytes) (now later : ℕ) (s : Server)
    (o : Option RefreshGrant)
    → find (key_of token) s.refresh ≡ o
    → let (t, r) = rotate key_of sign disk tokens token client resource now later s o in
      taken key (key_of token) r + entries_of key t.refresh
      ≤ grants key_of key (of_pair r) + entries_of key s.refresh
unfolding rotate
rotate_step key_of sign key disk tokens token client resource now later s none e = omega arith
rotate_step key_of sign key disk tokens token client resource now later s (some g) e =
    let there = found_entry (key_of token) g s.refresh e in
    elim (Bool-cases (ltb g.grant_expires_at now)) [
      | inl m ↦ rw (m) (omega arith)
      | inr m ↦ rw (m) (elim (Bool-cases (str_eq g.grant_client client)) [
        | inl n ↦ rw (n) (replace_step key_of key disk tokens token client _ _ later s _ there)
        | inr n ↦ rw (n) (omega arith)
      ])
    ]
