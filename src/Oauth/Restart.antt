-- ===== src/Oauth/Restart.antt =====
-- The refresh tokens behind a restart of the server.
use mcpx.Base.{
  ℕ, ◌+◌, ◌≤◌, ◌≡◌, true, false, Option, none, some, List, if◌then◌else◌, ltb, Bytes, is_blank,
}
use mcpx.Oauth.Server.{RefreshGrant, Server, find}
use mcpx.Oauth.Entries.{entries_of}
use mcpx.Oauth.Load.{valid_token_hash, Loaded, loaded, load_failed}

-- What a grant is worth at a time.
abbrev pub unexpired : ℕ → Option RefreshGrant → Option RefreshGrant
unexpired now none = none
unexpired now (some g) = if ltb now g.grant_expires_at then some g else none

-- An entry that can be written and read back.
abbrev pub IsKept : Bytes × RefreshGrant → Type 0
IsKept (k, g) = (valid_token_hash k ≡ true) × (is_blank g.grant_client ≡ false)

-- The first one that there is.
abbrev or_later : Option RefreshGrant → Option RefreshGrant → Option RefreshGrant
or_later none o = o
or_later (some g) o = some g

abbrev Finds : ℕ → List (Bytes × RefreshGrant) → List (Bytes × RefreshGrant) → Loaded → Type 0
Finds now grants items (loaded out pruned) =
    (key : Bytes) → find key out ≡ or_later (find key grants) (unexpired now (find key items))
Finds now grants items (load_failed e) = ⊥

-- No key is in both maps or twice in one.
abbrev AreApart : List (Bytes × RefreshGrant) → List (Bytes × RefreshGrant) → Type 0
AreApart grants items = (key : Bytes) → entries_of key grants + entries_of key items ≤ 1
