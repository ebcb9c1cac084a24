-- ===== src/Api.antt =====
-- Package internal/api.
pub mod Types
pub mod Errors
pub mod Writer
pub mod Responses
pub mod Strict
pub mod Wrapper
pub mod Routes
pub mod FinanceHandler
pub mod TenantHandler
pub mod Service
