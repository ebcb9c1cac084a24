-- ===== src/Common.antt =====
-- Package internal/common.
pub mod Principal
pub mod Tenant
pub mod Convert
pub mod Names
