-- ===== src/Distribution.antt =====
-- internal/controller/ruleserver and the two ruleclient packages: the rules on their way from the
-- controller to the ext_authz services and to the token service.
pub mod Proto
pub mod Stream
pub mod Server
pub mod Client
pub mod Setter
pub mod Laws
pub mod Perm
pub mod Sync
pub mod Kinds
pub mod Serve
pub mod Loop
pub mod Streams
