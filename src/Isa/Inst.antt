-- ===== src/Isa/Inst.antt =====
-- `Instruction` of instruction.go, `CodePointer` and `MemoryReference` of arg_token.go.
-- A register index is a Go `int` that the package only makes from decoded fields and from its
-- table of names, so it is a natural number here.
use mips.Prelude.{ℕ, String, Bool, false, List}

pub record CodePointer : Type 0 where
  pub absolute : Bool
  pub is_symbol : Bool
  pub symbol : String
  pub constant : ℕ

pub record MemoryReference : Type 0 where
  pub register : ℕ
  pub offset : ℕ

pub record Instruction : Type 0 where
  pub name : String
  pub registers : List ℕ
  pub unsigned_constant16 : ℕ
  pub signed_constant16 : ℕ
  pub constant5 : ℕ
  pub code_pointer : CodePointer
  pub memory_reference : MemoryReference
  pub raw_word : ℕ

-- The zero values, which a composite literal gives to the fields that it leaves out.
abbrev pub no_pointer : CodePointer
no_pointer = record { absolute = false; is_symbol = false; symbol = ""; constant = 0 }

abbrev pub no_reference : MemoryReference
no_reference = record { register = 0; offset = 0 }

abbrev pub instruction : String → List ℕ → Instruction
instruction n rs = record {
  name = n;
  registers = rs;
  unsigned_constant16 = 0;
  signed_constant16 = 0;
  constant5 = 0;
  code_pointer = no_pointer;
  memory_reference = no_reference;
  raw_word = 0;
}
