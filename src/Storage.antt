-- ===== src/Storage.antt =====
-- Package internal/storage.
pub mod Types
pub mod Slug
pub mod S3
pub mod Contract
pub mod Noop
