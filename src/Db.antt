-- ===== src/Db.antt =====
-- Package internal/db.
pub mod Query
pub mod Provision
pub mod Sessions
pub mod Pool
