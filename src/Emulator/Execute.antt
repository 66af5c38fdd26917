-- ===== src/Emulator/Execute.antt =====
-- The `execute…` methods, by kind of instruction.
pub mod Control
pub mod Data
pub mod Transfer
