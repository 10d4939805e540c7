-- ===== src/Oauth/Load.antt =====
-- internal/oauth/refresh_persist.go: loadRefreshLocked. The JSON of the file is read back by the type that
-- wrote it.
use mcpx.Base.{
  ℕ, Bool, true, false, not, ◌&&◌, ◌||◌, Option, none, some, List, [], ◌∷◌, if◌then◌else◌, ◌==◌,
  ltb, length, all, Bytes, is_blank,
}
use mcpx.Oauth.Pkce.{in_range}
use mcpx.Oauth.Server.{RefreshGrant, Server, find, set}
use mcpx.Oauth.Refresh.{Disk, save_refresh}

abbrev pub is_hex : ℕ → Bool
is_hex c = in_range b'0' b'9' c || in_range b'a' b'f' c || in_range b'A' b'F' c

-- validRefreshTokenHash: hex.DecodeString takes pairs of hexadecimal digits.
unfoldable pub valid_token_hash : Bytes → Bool
valid_token_hash value = length value == 64 && all is_hex value

pub data LoadError : Type 0 where
  unreadable invalid_hash missing_client duplicate_hash save_failed : LoadError

pub data Loaded : Type 0 where
  loaded : List (Bytes × RefreshGrant) → Bool → Loaded
  load_failed : LoadError → Loaded

-- The loop, with the grants that are loaded and whether one was dropped.
unfoldable pub load_from :
    ℕ → List (Bytes × RefreshGrant) → Bool → List (Bytes × RefreshGrant) → Loaded
unfolding valid_token_hash find set
load_from now grants pruned [] = loaded grants pruned
load_from now grants pruned ((k, g) ∷ items) =
    let dropped = load_from now grants true items in
    let kept = load_from now (set k g grants) pruned items in
    if not (valid_token_hash k)
    then load_failed invalid_hash
    else if is_blank g.grant_client
    then load_failed missing_client
    else if not (ltb now g.grant_expires_at)
    then dropped
    else elim (find k grants) [ some _ ↦ load_failed duplicate_hash | none ↦ kept ]

-- The file is not there, cannot be read or is of another form or version, or has grants.
pub data FileRead : Type 0 where
  is_absent is_unreadable : FileRead
  has_grants : List (Bytes × RefreshGrant) → FileRead

abbrev pub saved : Server × Bool → Server × Option LoadError
saved (s, true) = (s, none)
saved (s, false) = (s, some save_failed)

unfoldable pub take_loaded : Disk → Server → Loaded → Server × Option LoadError
unfolding save_refresh
take_loaded disk s (load_failed e) = (s, some e)
take_loaded disk s (loaded grants true) = saved (save_refresh disk (record s { refresh = grants }))
take_loaded disk s (loaded grants false) = (record s { refresh = grants }, none)

-- loadRefreshLocked
unfoldable pub load_refresh : Disk → ℕ → FileRead → Server → Server × Option LoadError
unfolding take_loaded load_from
load_refresh disk now is_absent s = (s, none)
load_refresh disk now is_unreadable s = (s, some unreadable)
load_refresh disk now (has_grants grants) s = take_loaded disk s (load_from now [] false grants)
