-- ===== src/Oauth.antt =====
-- internal/oauth: the authorization server of the HTTP endpoint.
pub mod Pkce
pub mod Server
pub mod Refresh
pub mod Calls
pub mod Entries
pub mod Steps
pub mod Once
pub mod Backed
pub mod Eviction
pub mod Bounded
pub mod Registry
pub mod Redirects
pub mod Credentials
pub mod Load
pub mod Restart
pub mod Examples
