-- ===== src/Tts.antt =====
-- pkg/tts: the Transaction Token Service.
pub mod Scope
pub mod Rules
pub mod Verifier
pub mod Request
pub mod Handler
pub mod Config
pub mod Server
