-- ===== src/Assembly.antt =====
-- Between tokens and instructions: arg_token.go, template.go, instruction.go and lexer.go's types.
pub mod Token
pub mod Template
pub mod Parse
pub mod Render
mod Tests
pub mod Reading
pub mod Equal
pub mod Lines
pub mod Reassembly
pub mod Printing
