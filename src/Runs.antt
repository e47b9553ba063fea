-- ===== src/Runs.antt =====
-- The ledger of agent runs: crates/ecphoria-core/src/runtime/.
pub mod Types
pub mod Store
pub mod Leases
pub mod Records
mod Examples
