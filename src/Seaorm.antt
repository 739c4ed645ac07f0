-- ===== src/Seaorm.antt =====
-- Database access of crates/stano-seaorm.
pub mod QueryTracing
pub mod DbConfig
