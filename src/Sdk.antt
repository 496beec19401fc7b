-- ===== src/Sdk.antt =====
-- sdk: the client of the token endpoint, the verifier of TxTokens, and the middleware.
pub mod Client
pub mod Verify
pub mod Middleware
