-- ===== src/Proxy.antt =====
-- The reverse proxy of internal/proxy.
pub mod Caddy
