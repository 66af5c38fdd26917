-- ===== src/Emulator/Flow.antt =====
-- What a step does to the flow of control.
pub mod Keeps
pub mod Execute
pub mod Whole
