-- ===== src/Coding.antt =====
-- inst_coding.go: instructions to and from 32-bit words.
pub mod Tables
pub mod Target
pub mod Decode
pub mod Encode
pub mod RoundTrip
mod Tests
pub mod Landing
pub mod Families
