-- ===== src/Oauth/Refresh.antt =====
-- The refresh tokens of internal/oauth/token.go and refresh_persist.go. The key of a token is the
-- hash `key_of`. The order of a map's entries is that of the list.
use mcpx.Base.{
  ℕ, ◌+◌, ◌*◌, Bool, true, false, not, ◌||◌, Option, none, some, List, [], ◌∷◌, if◌then◌else◌, ltb,
  leb, length, Bytes, str_eq,
}
use mcpx.Oauth.Server.{
  RefreshGrant, Server, Claims, Result, ok, failed, invalid_grant, not_saved, still_drawing, second,
  or_default, delete, find, set, target, create_access_token,
}

abbrev pub max_refresh_tokens : ℕ
max_refresh_tokens = 4096

abbrev pub refresh_ttl : ℕ
refresh_ttl = 30 * 24 * 3600 * second

-- What saving meets: no error, one before the file is replaced, or one of the last chmod.
pub data Disk : Type 0 where
  is_fine is_full is_locked : Disk

unfoldable pub write_refresh : Disk → Server → Server × Bool
write_refresh is_fine s = (record s { file = s.refresh }, true)
write_refresh is_full s = (s, false)
write_refresh is_locked s = (record s { file = s.refresh }, false)

-- saveRefreshLocked, with whether it succeeds. The file has the entries; the order in it is not kept.
unfoldable pub save_refresh : Disk → Server → Server × Bool
unfolding write_refresh
save_refresh disk s = if s.is_persistent then write_refresh disk s else (s, true)

unfoldable pub prune_refresh : ℕ → List (Bytes × RefreshGrant) → List (Bytes × RefreshGrant)
prune_refresh now [] = []
prune_refresh now ((k, v) ∷ entries) =
    let rest = prune_refresh now entries in
    if ltb v.grant_expires_at now then rest else (k, v) ∷ rest

-- The loop that looks for the oldest grant; no key is empty, since a hash is not.
unfoldable pub oldest_of : Bytes → ℕ → List (Bytes × RefreshGrant) → Bytes
oldest_of key oldest [] = key
oldest_of key oldest ((k, v) ∷ entries) =
    if str_eq key [] || ltb v.grant_expires_at oldest
    then oldest_of k v.grant_expires_at entries
    else oldest_of key oldest entries

unfoldable pub evict : List (Bytes × RefreshGrant) → List (Bytes × RefreshGrant)
unfolding oldest_of delete
evict entries =
    if leb max_refresh_tokens (length entries)
    then (let key = oldest_of [] 0 entries in if str_eq key [] then entries else delete key entries)
    else entries

unfoldable pub new_grant : Bytes → Bytes → Bytes → ℕ → RefreshGrant
new_grant client resource scope now = record {
  grant_client = client;
  grant_resource = resource;
  grant_scope = or_default scope;
  grant_expires_at = now + refresh_ttl;
}

-- Keep the state, or put the grants of before back.
unfoldable pub or_rollback {ℓ} :
    {A : Type ℓ} → List (Bytes × RefreshGrant) → A → Server × Bool → Server × Result A
or_rollback before a (s, true) = (s, ok a)
or_rollback before a (s, false) = (record s { refresh = before }, failed not_saved)

module _ (key_of : Bytes → Bytes) where
  unfoldable pub is_used : Bytes → List (Bytes × RefreshGrant) → Bool
  unfolding find
  is_used token entries = elim (find (key_of token) entries) [ none ↦ false | some _ ↦ true ]

  -- The loop of issueRefreshTokenLocked on the tokens that the random source draws; none while the
  -- loop still runs.
  unfoldable pub draw : List Bytes → List (Bytes × RefreshGrant) → Option Bytes
  unfolding is_used
  draw [] entries = none
  draw (token ∷ tokens) entries = if is_used token entries then draw tokens entries else some token

  unfoldable pub install :
      Disk
      → List (Bytes × RefreshGrant)
      → RefreshGrant
      → Option Bytes
      → Server
      → Server × Result Bytes
  unfolding set save_refresh or_rollback
  install disk before g none s = (s, failed still_drawing)
  install disk before g (some token) s =
      or_rollback before token
        (save_refresh disk (record s { refresh = set (key_of token) g s.refresh }))

  -- IssueRefreshToken
  unfoldable pub issue_refresh_token :
      Disk → List Bytes → Bytes → Bytes → Bytes → ℕ → ℕ → Server → Server × Result Bytes
  unfolding install draw new_grant evict prune_refresh
  issue_refresh_token disk tokens client resource scope now later s =
      let t = record s { refresh = evict (prune_refresh now s.refresh) } in
      install disk s.refresh (new_grant client resource scope later) (draw tokens t.refresh) t

  unfoldable pub pairs : Bytes → Server × Result Bytes → Server × Result (Bytes × Bytes)
  pairs access (s, ok next) = (s, ok (access, next))
  pairs access (s, failed e) = (s, failed e)

  -- The access token is signed before the token is replaced.
  unfoldable pub replace :
      Disk
      → List Bytes
      → Bytes
      → Bytes
      → Bytes
      → Bytes
      → ℕ
      → Server
      → Result Bytes
      → Server × Result (Bytes × Bytes)
  unfolding pairs install draw new_grant delete
  replace disk tokens token client resource scope later s (failed e) = (s, failed e)
  replace disk tokens token client resource scope later s (ok access) =
      let t = record s { refresh = delete (key_of token) s.refresh } in
      pairs access
        (install disk s.refresh (new_grant client resource scope later) (draw tokens t.refresh) t)

  unfoldable pub rotate :
      (Bytes → Claims → Option Bytes)
      → Disk
      → List Bytes
      → Bytes
      → Bytes
      → Bytes
      → ℕ
      → ℕ
      → Server
      → Option RefreshGrant
      → Server × Result (Bytes × Bytes)
  unfolding replace target create_access_token
  rotate sign disk tokens token client resource now later s none = (s, failed invalid_grant)
  rotate sign disk tokens token client resource now later s (some g) =
      if ltb g.grant_expires_at now
      then (s, failed invalid_grant)
      else if not (str_eq g.grant_client client)
      then (s, failed invalid_grant)
      else let (res, iss) = target s g.grant_resource resource in
        replace disk tokens token client res g.grant_scope later s
          (create_access_token sign s client res iss later)

  -- ExchangeRefreshToken
  unfoldable pub exchange_refresh_token :
      (Bytes → Claims → Option Bytes)
      → Disk
      → List Bytes
      → Bytes
      → Bytes
      → Bytes
      → ℕ
      → ℕ
      → Server
      → Server × Result (Bytes × Bytes)
  unfolding rotate find
  exchange_refresh_token sign disk tokens token client resource now later s =
      rotate sign disk tokens token client resource now later s (find (key_of token) s.refresh)
