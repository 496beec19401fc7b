-- ===== src/Extauth.antt =====
-- pkg/extauth: the Envoy ext_authz services.
pub mod Celverify
pub mod Matching
pub mod Claims
pub mod Server
pub mod Identity
pub mod Generate
