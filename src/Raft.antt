-- ===== src/Raft.antt =====
-- The Raft log storage and state machine of crates/ecphoria-cluster/src/raft/.
pub mod Types
pub mod Disk
pub mod Store
pub mod Machine
pub mod Toy
