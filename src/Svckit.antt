-- ===== src/Svckit.antt =====
-- svckit: the errors, shared types, metrics and the cluster connection that all services use.
pub mod Errors
pub mod Types
pub mod Metrics
pub mod Database
pub mod Config
