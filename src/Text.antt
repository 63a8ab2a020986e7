-- ===== src/Text.antt =====
-- The operations of Go's package strings that the program calls, on texts as lists of bytes.
-- Case folding and white space are those of ASCII.
mod Core
mod Case
mod Search
mod Trim
mod Fields
mod Split
unfoldable pub use Core.*
unfoldable pub use Case.*
unfoldable pub use Search.*
unfoldable pub use Trim.*
unfoldable pub use Fields.*
pub use Split.*
