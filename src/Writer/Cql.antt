-- ===== src/Writer/Cql.antt =====
-- services/dual-writer/src/cql_server.cpp: the CQL protocol proxy.
pub mod Frame
pub mod Query
pub mod Proxy
pub mod Tests
