-- ===== src/Reader.antt =====
-- services/dual-reader: the whitelist filter, reconciliation, the dual reader, the row-count validator.
pub mod Filter
pub mod Args
pub mod Reconciliation
pub mod Config
pub mod DualReader
pub mod Api
pub mod Validator
pub mod Tests
