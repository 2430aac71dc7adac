-- ===== src/Tests.antt =====
-- Test data, runs of the model at fixed inputs, and the theorems at concrete inputs.
pub mod Samples
pub mod Runs
pub mod Examples
pub mod Scenarios
pub mod Provider
pub mod Store
pub mod Requests
pub mod Checkpointing
pub mod Fetching
pub mod Paths
