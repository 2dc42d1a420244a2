-- ===== src/ModelManager.antt =====
-- `ModelManager` of src/drift/node/model_manager.py.
pub mod Residency
pub mod Step
pub mod Counts
pub mod Invariant
pub mod Candidates
pub mod Steps
pub mod Leases
pub mod Runs
pub mod Tests
