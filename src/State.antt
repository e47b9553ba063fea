-- ===== src/State.antt =====
-- The agent state store: crates/ecphoria-core/src/memory/state.rs.
pub mod Like
pub mod Table
pub mod Store
