-- ===== src/OAuth.antt =====
-- The OAuth authorization server, internal/auth/oauthas.
pub mod Redirects
pub mod Store
pub mod Server
pub mod Runs
