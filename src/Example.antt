-- ===== src/Example.antt =====
-- The example application of crates/stano-example-app, which uses every part of the platform.
pub mod Domain
pub mod Persistence
pub mod Rest
pub mod Access
pub mod Widgets
pub mod Startup
pub mod Main
mod Tests
