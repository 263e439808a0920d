-- ===== src/Tests.antt =====
-- Runs of the modelled code on small inputs, and the theorems applied to them.
pub mod Fixtures
pub mod Sessions
pub mod Tools
pub mod Schedules
pub mod Registry
pub mod Artifacts
pub mod Webhook
pub mod Worker
pub mod Submissions
pub mod Management
pub mod Images
pub mod Memory
pub mod Toolbox
