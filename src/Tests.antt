-- ===== src/Tests.antt =====
-- The theorems at concrete inputs.
pub mod Samples
pub mod Auth
pub mod Chain
pub mod Storage
pub mod Documents
pub mod Db
pub mod Api
pub mod Calls
pub mod Start
pub mod Dto
pub mod Life
