-- ===== src/Assembly/Reading.antt =====
-- Reading tokens, arg_token.go.
pub mod Registers
pub mod Numbers
pub mod Tokens
pub mod Bounds
pub mod Texts
pub mod Lexer
