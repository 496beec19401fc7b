-- ===== src/Deployment.antt =====
-- The parts together: from the resources of the controller to what the services decide.
pub mod Policies
pub mod History
pub mod Verifying
pub mod Issuing
pub mod Collision
pub mod Generating
pub mod EndToEnd
