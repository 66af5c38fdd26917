-- ===== src/Bits.antt =====
-- `|`, `&` and `^` of Go on unsigned numbers, at variables.
mod Step
pub mod Fields
