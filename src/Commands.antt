-- ===== src/Commands.antt =====
-- The commands' own loops: mips-as/main.go and mips-disas/main.go.
pub mod Assemble
pub mod Disassemble
pub mod Writing
pub mod Reading
pub mod Bytes
pub mod RoundTrip
pub mod Output
pub mod Text
pub mod Dump
mod Tests
