-- ===== src/Di.antt =====
-- The dependency injection container of crates/stano-di.
pub mod Container
pub mod Context
mod Tests
