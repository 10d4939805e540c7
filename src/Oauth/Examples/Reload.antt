-- ===== src/Oauth/Examples/Reload.antt =====
-- A server with one refresh grant, before and after its restart.
use mcpx.Base.{true, [], ◌∷◌, Bytes, codes}
use mcpx.Oauth.Server.{RefreshGrant, Server}

abbrev hash : Bytes
hash = codes "0123456789abcdef0123456789abcdef0123456789abcdef0123456789abcdef"

abbrev grant : RefreshGrant
grant = record {
  grant_client = codes "app";
  grant_resource = [];
  grant_scope = codes "mcp";
  grant_expires_at = 100;
}

abbrev before : Server
before = record {
  server_url = [];
  token_secret = codes "secret";
  token_ttl = 86400;
  pending = [];
  refresh = (hash, grant) ∷ [];
  is_persistent = true;
  file = [];
}

abbrev after : Server
after = record before { refresh = [] }
