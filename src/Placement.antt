-- ===== src/Placement.antt =====
-- src/drift/node/contribution_planner.py: automatic placement of a model's blocks. Model names and
-- digests are named by numbers in the order of the strings.
pub mod Window
pub mod Planner
pub mod Propose
pub mod Hysteresis
pub mod Maxima
pub mod Sliding
pub mod LeastCovered
pub mod Tests
