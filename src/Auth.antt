-- ===== src/Auth.antt =====
-- Package internal/auth: claims, roles, the authenticator and its middleware.
pub mod Claims
pub mod Roles
pub mod Authenticator
pub mod Audiences
pub mod Middleware
