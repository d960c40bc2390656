-- ===== src/Helix.antt =====
-- helix_consensus/helix: leader election after Raft, over UDP.
pub mod Rpc
pub mod Storage
pub mod Node
pub mod Cluster
mod Tests
