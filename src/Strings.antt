-- ===== src/Strings.antt =====
-- The functions of Go's packages strings, unicode and fmt that the service calls, over texts as
-- lists of code points. The Unicode tables are a parameter from code point 128 on.
mod Defs
pub mod Suffixes
pub mod Replacing
pub mod Trimming
pub mod Splitting
unfoldable pub use Defs.*
