-- ===== src/Security.antt =====
-- crates/stano-security and the request authorization of crates/stano-axum/src/security.
pub mod Jwt
pub mod Builder
pub mod Token
pub mod Hook
pub mod Layer
mod Tests
