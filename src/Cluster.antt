-- ===== src/Cluster.antt =====
-- How a fleet is configured and how requests travel in it: crates/ecphoria-cluster/src/coordinator.rs
-- and crates/ecphoria-gateway/src/cluster/.
pub mod Config
pub mod Members
pub mod Proxy
pub mod Shards
pub mod Leader
pub mod Examples
