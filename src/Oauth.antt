-- ===== src/Oauth.antt =====
-- oauth/*.go: the OAuth 2.0 authorization server. Each child models one file or one group of
-- functions of oauth/service.go.
pub mod Scopes
pub mod Modify
pub mod Params
pub mod Service
pub mod Repository
pub mod Issue
pub mod Code
pub mod Refresh
pub mod Credentials
pub mod Device
pub mod Revoke
pub mod Introspect
pub mod Hybrid
pub mod Authorize
pub mod Start
pub mod Login
