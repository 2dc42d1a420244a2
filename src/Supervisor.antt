-- ===== src/Supervisor.antt =====
-- src/drift/node/worker_supervisor.py: contribution workers as processes of the local node.
pub mod Launch
pub mod State
pub mod Spawn
pub mod Monitor
pub mod Control
pub mod Safety
pub mod Pause
pub mod Orphan
pub mod Tests
