-- ===== src/Auth.antt =====
-- The login of internal/auth.
pub mod Throttle
pub mod Accounts
