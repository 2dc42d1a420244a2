-- ===== src/Admission.antt =====
-- src/drift/server/admission.py: bounded admission of sessions to a public worker.
pub mod Policy
pub mod State
pub mod Quota
pub mod Routes
pub mod Prune
pub mod Cases
pub mod Invariant
pub mod Steps
pub mod FailClosed
pub mod Lease
pub mod Registration
pub mod Tests
