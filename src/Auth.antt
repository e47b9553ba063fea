-- ===== src/Auth.antt =====
-- Authentication and access control of the gateway: crates/ecphoria-gateway/src/auth/middleware.rs.
pub mod Roles
pub mod Keys
pub mod State
pub mod Limiter
pub mod Gate
