-- ===== src/Text.antt =====
-- Go strings as lists of bytes, with the functions of the package `strings` that the program calls:
-- comparison, `HasPrefix`, `Split`, `Join` and `Trim` at one byte.
mod Equal
pub mod Split
pub mod Runes
pub mod Decimal
pub mod Base64
pub mod Search
pub mod Utf8
unfoldable pub use Equal.*
