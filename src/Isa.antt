-- ===== src/Isa.antt =====
-- The data that the parts of the package exchange: instructions, words and errors.
mod Word
mod Failure
mod Inst
pub use Word.*
pub use Failure.*
pub use Inst.*
