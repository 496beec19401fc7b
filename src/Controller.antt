-- ===== src/Controller.antt =====
-- internal/controller: the reconcilers of the custom resources, and the rules that they publish.
pub mod Policy
pub mod Conditions
pub mod Generation
pub mod Verification
pub mod Issuance
