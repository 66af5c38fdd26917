-- ===== src/Emulator/Safety.antt =====
-- No panic, and a well-formed state after every step.
pub mod Fits
pub mod Valid
pub mod Rules
pub mod Data
pub mod Transfer
pub mod Control
pub mod Execute
pub mod Whole
pub mod Decoded
pub mod Words
pub mod Parsed
pub mod Source
pub mod Text
