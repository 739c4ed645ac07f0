-- ===== src/Launcher.antt =====
-- The server launcher of crates/stano-launcher.
pub mod Observability
pub mod Server
pub mod Cors
pub mod Config
pub mod Run
pub mod Metrics
pub mod Responses
pub mod Pipeline
pub mod Routes
