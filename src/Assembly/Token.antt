-- ===== src/Assembly/Token.antt =====
-- `ArgToken` with its accessors, and the tokenized lines. An accessor returns its value and `ok`.
use mips.Prelude.{
  ℕ, String, List, Option, Bool, true, false, none, ◌&&◌, not, ltb, ◌==◌, bit_and, if◌then◌else◌,
}
use mips.Isa.{CodePointer, MemoryReference, no_pointer, u8, u16, sext16, ◌<<◌, ◌>>>◌}

pub record ArgToken : Type 0 where
  pub is_register : Bool
  pub register : ℕ
  pub is_constant : Bool
  pub constant : ℕ
  pub is_symbol : Bool
  pub symbol : String
  pub is_memory : Bool
  pub mem_register : ℕ
  pub mem_offset : ℕ

-- the zero value
abbrev pub no_token : ArgToken
no_token = record {
  is_register = false;
  register = 0;
  is_constant = false;
  constant = 0;
  is_symbol = false;
  symbol = "";
  is_memory = false;
  mem_register = 0;
  mem_offset = 0;
}

unfoldable pub register_of : ArgToken → ℕ × Bool
register_of t = (t.register, t.is_register)

unfoldable pub unsigned_constant16_of : ArgToken → ℕ × Bool
unsigned_constant16_of t = (u16 t.constant, t.is_constant && bit_and t.constant 0xffff0000 == 0)

unfoldable pub signed_constant16_of : ArgToken → ℕ × Bool
signed_constant16_of t = (u16 t.constant, t.is_constant && t.constant == sext16 (u16 t.constant))

unfoldable pub constant5_of : ArgToken → ℕ × Bool
constant5_of t = (u8 t.constant, t.is_constant && ltb t.constant 0x20)

unfoldable pub relative_code_pointer_of : ArgToken → CodePointer × Bool
relative_code_pointer_of t =
    if t.is_constant
    then if not (sext16 (u16 (t.constant >>> 2)) << 2 == bit_and t.constant 0xfffffffc)
      then (no_pointer, false)
      else (record no_pointer { constant = t.constant }, true)
    else if t.is_symbol
    then (record no_pointer { is_symbol = true; symbol = t.symbol }, true)
    else (no_pointer, false)

unfoldable pub absolute_code_pointer_of : ArgToken → CodePointer × Bool
absolute_code_pointer_of t =
    if t.is_constant
    then (record no_pointer { absolute = true; constant = t.constant }, true)
    else if t.is_symbol
    then (record no_pointer { absolute = true; is_symbol = true; symbol = t.symbol }, true)
    else (no_pointer, false)

unfoldable pub memory_reference_of : ArgToken → MemoryReference × Bool
memory_reference_of t = (record { register = t.mem_register; offset = t.mem_offset }, t.is_memory)

pub record TokenizedInstruction : Type 0 where
  pub name : String
  pub arguments : List ArgToken

pub record TokenizedDirective : Type 0 where
  pub name : String
  pub constant : ℕ

pub record TokenizedLine : Type 0 where
  pub line_number : ℕ
  pub comment : Option String
  pub directive : Option TokenizedDirective
  pub instruction : Option TokenizedInstruction
  pub symbol_marker : Option String

abbrev pub no_line : TokenizedLine
no_line = record {
  line_number = 0;
  comment = none;
  directive = none;
  instruction = none;
  symbol_marker = none;
}
