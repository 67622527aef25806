-- ===== src/Loader.antt =====
-- services/sstable-loader.
pub mod Filter
pub mod Args
pub mod Threads
pub mod TokenRange
pub mod IndexManager
pub mod Ranges
pub mod Config
pub mod Migration
pub mod Api
