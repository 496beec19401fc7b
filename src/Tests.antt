-- ===== src/Tests.antt =====
-- Concrete runs of the code, on small instances of the libraries that it calls.
pub mod Fixtures
pub mod Parsing
mod Tts
mod Authn
mod Sdk
mod Issuance
mod Server
mod Command
mod Deployment
mod Loop
mod Extauth
mod Controller
mod Distribution
mod EndToEnd
