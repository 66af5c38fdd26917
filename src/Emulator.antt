-- ===== src/Emulator.antt =====
-- emulator.go: the processor.
pub mod State
pub mod Execute
pub mod Step
pub mod Run
pub mod Safety
pub mod Flow
pub mod Words
pub mod Branching
pub mod Ending
