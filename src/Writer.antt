-- ===== src/Writer.antt =====
-- services/dual-writer: the blacklist filter, the dual writer with its retry queue, the CQL proxy.
pub mod Filter
pub mod Args
pub mod DualWriter
pub mod Config
pub mod Api
pub mod Retry
pub mod Service
pub mod WriteId
pub mod Cql
pub mod Tests
