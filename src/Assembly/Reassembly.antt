-- ===== src/Assembly/Reassembly.antt =====
-- What a disassembled word or a parsed instruction comes to when it is rendered and read again.
pub mod Reads
pub mod Constants
pub mod Registers
pub mod Accepted
pub mod Parsed
pub mod Whole
