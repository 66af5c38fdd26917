-- ===== src/Emulator/Branching.antt =====
-- Where branches and jumps take the program.
pub mod Dispatch
pub mod Branch
pub mod Jump
