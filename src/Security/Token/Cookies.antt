-- ===== src/Security/Token/Cookies.antt =====
-- Where a request's token comes from.
use modular_rust_platform.Base.Text.{Text}
