-- ===== src/Server.antt =====
-- Package internal/server.
pub mod TenantMiddleware
pub mod Router
pub mod Run
