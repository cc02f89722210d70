-- ===== src/Text.antt =====
-- Go strings as lists of bytes, and the functions of package strings that the program calls.
-- A literal of the source is `text "…"`; all literals are ASCII.
mod Basic
mod Case
mod Space
pub mod Search
pub mod Split
unfoldable pub use Basic.*
unfoldable pub use Case.*
unfoldable pub use Space.*
