-- ===== src/Routing.antt =====
-- The client's view of who serves which block, and its routes: `compute_spans` of
-- src/drift/utils/dht.py, src/drift/client/routing/sequence_info.py and
-- src/drift/client/routing/sequence_manager.py. Peers are named by numbers in the order of their
-- identities, and blocks by their place in the sequence.
pub mod Spans
pub mod Throughput
pub mod Coverage
pub mod Latency
pub mod Graph
pub mod Paths
pub mod Update
pub mod Screening
pub mod Removal
pub mod Tests
