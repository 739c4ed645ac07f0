-- ===== src/Macros.antt =====
-- The procedural macros of crates/stano-di-macros and crates/stano-route-macros.
pub mod Syntax
pub mod Service
pub mod Keys
pub mod Placeholders
pub mod Route
mod Tests
