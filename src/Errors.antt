-- ===== src/Errors.antt =====
-- The errors of crates/stano-common and their HTTP responses in crates/stano-axum/src/error.
pub mod Service
pub mod Api
