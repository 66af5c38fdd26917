-- ===== src/Coding/RoundTrip.antt =====
-- Encoding what was decoded gives the word back.
pub mod Layout
pub mod Base
mod Dispatch
mod Blocks
mod Registers
mod Control
pub mod Whole
