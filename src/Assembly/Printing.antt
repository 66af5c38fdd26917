-- ===== src/Assembly/Printing.antt =====
-- Printing lines, lexer.go, and reading them again.
pub mod Numerals
pub mod Text
mod Tests
pub mod Rendered
pub mod RoundTrip
pub mod Found
pub mod Lines
pub mod CallCode
pub mod Code
pub mod Calls
pub mod Trimming
pub mod Operands
pub mod Again
pub mod Memory
pub mod Arguments
pub mod Strings
pub mod ReadBack
