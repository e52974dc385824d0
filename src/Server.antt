-- ===== src/Server.antt =====
-- The HTTP handlers of internal/server.
pub mod Webhook
pub mod Login
