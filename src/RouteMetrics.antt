-- ===== src/RouteMetrics.antt =====
-- src/drift/node/route_metrics.py: observations of completed inference routes, reduced to coarse
-- buckets. A string is named by a number; `is_digest` is the match of `_DIGEST_PATTERN`.
pub mod Observation
pub mod Tracker
pub mod Aggregate
pub mod Buckets
pub mod Roundtrip
pub mod Windows
pub mod Published
pub mod Tests
pub mod Median
pub mod Consensus
