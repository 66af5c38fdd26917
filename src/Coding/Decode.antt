-- ===== src/Coding/Decode.antt =====
-- `DecodeInstruction`. Each block of the source that may return is a function into `Option`.
use mips.Prelude.{
  ℕ, String, List, [], ◌∷◌, Option, none, some, true, ◌&&◌, ◌||◌, bit_and, ◌==◌, str_eq, lookup,
  if◌then◌else◌, when, ◌or_else◌, ◌or_try◌,
}
use mips.Isa.{Instruction, instruction, no_pointer, u8, u16, sext16, ◌<<◌, ◌>>>◌}
use mips.Coding.Tables.{
  OpcodeTable, two_operand_immediate_opcodes, branch_opcodes, j_type_opcodes, memory_opcodes,
  constant_shift_funcs, variable_shift_funcs, three_reg_operand_funcs, lui_opcode, jr_func,
  jalr_func,
}

-- The local variables of `DecodeInstruction`.
pub record Fields : Type 0 where
  pub opcode : ℕ
  pub register_s : ℕ
  pub register_t : ℕ
  pub register_d : ℕ
  pub shift_amount : ℕ
  pub func_field : ℕ
  pub immediate : ℕ

unfoldable pub fields : ℕ → Fields
fields word = record {
  opcode = bit_and (word >>> 26) 0x3f;
  register_s = bit_and (word >>> 21) 0x1f;
  register_t = bit_and (word >>> 16) 0x1f;
  register_d = bit_and (word >>> 11) 0x1f;
  shift_amount = u8 (bit_and (word >>> 6) 0x1f);
  func_field = bit_and word 0x3f;
  immediate = bit_and word 0xffff;
}

-- `if instName, ok := m[number]; ok { … }`
unfoldable pub when_numbered : OpcodeTable → ℕ → (String → Option Instruction) → Option Instruction
when_numbered m number make = elim (lookup number m) [ none ↦ none | some name ↦ make name ]

unfoldable pub immediate_instruction : Fields → String → Instruction
immediate_instruction f name = record (instruction name (f.register_t ∷ f.register_s ∷ [])) {
  unsigned_constant16 = u16 f.immediate;
  signed_constant16 = u16 f.immediate;
}

unfoldable pub decode_immediate : Fields → Option Instruction
unfolding immediate_instruction two_operand_immediate_opcodes when_numbered
decode_immediate f =
    when_numbered two_operand_immediate_opcodes f.opcode
      (λ name. some (immediate_instruction f name))

unfoldable pub lui_instruction : Fields → Instruction
lui_instruction f = record (instruction "LUI" (f.register_t ∷ [])) {
  unsigned_constant16 = u16 f.immediate;
}

unfoldable pub decode_lui : Fields → Option Instruction
unfolding lui_instruction
decode_lui f = when (f.opcode == lui_opcode && f.register_s == 0) (lui_instruction f)

-- CodePointer{Constant: uint32(int16(immediate)) << 2}
unfoldable pub branch_instruction : Fields → String → List ℕ → Instruction
branch_instruction f name registers = record (instruction name registers) {
  code_pointer = record no_pointer { constant = sext16 f.immediate << 2 };
}

unfoldable pub branch_named : Fields → String → Option Instruction
unfolding branch_instruction
branch_named f name =
    if str_eq name "BEQ" || str_eq name "BNE"
    then some (branch_instruction f name (f.register_s ∷ f.register_t ∷ []))
    else let is_bgez = str_eq name "BLTZ" && f.register_t == 1 in
      let inst_name = if is_bgez then "BGEZ" else name in
      let register_t = if is_bgez then 0 else f.register_t in
      when (register_t == 0) (branch_instruction f inst_name (f.register_s ∷ []))

unfoldable pub decode_branch : Fields → Option Instruction
unfolding branch_named branch_opcodes when_numbered
decode_branch f = when_numbered branch_opcodes f.opcode (branch_named f)

unfoldable pub jump_instruction : ℕ → String → Instruction
jump_instruction word name = record (instruction name []) {
  code_pointer = record no_pointer { absolute = true; constant = bit_and word 0x03ffffff << 2 };
}

unfoldable pub decode_jump : ℕ → Fields → Option Instruction
unfolding jump_instruction j_type_opcodes when_numbered
decode_jump word f =
    when_numbered j_type_opcodes f.opcode (λ name. some (jump_instruction word name))

unfoldable pub memory_instruction : Fields → String → Instruction
memory_instruction f name = record (instruction name (f.register_t ∷ [])) {
  memory_reference = record { register = f.register_s; offset = u16 f.immediate };
}

unfoldable pub decode_memory : Fields → Option Instruction
unfolding memory_instruction memory_opcodes when_numbered
decode_memory f = when_numbered memory_opcodes f.opcode (λ name. some (memory_instruction f name))

unfoldable pub constant_shift_instruction : Fields → String → Instruction
constant_shift_instruction f name = record (instruction name (f.register_d ∷ f.register_t ∷ [])) {
  constant5 = f.shift_amount;
}

unfoldable pub decode_constant_shift : Fields → Option Instruction
unfolding constant_shift_instruction constant_shift_funcs when_numbered
decode_constant_shift f =
    when_numbered constant_shift_funcs f.func_field
      (λ name. when (f.register_s == 0) (constant_shift_instruction f name))

unfoldable pub variable_shift_instruction : Fields → String → Instruction
variable_shift_instruction f name =
    instruction name (f.register_d ∷ f.register_t ∷ f.register_s ∷ [])

unfoldable pub decode_variable_shift : Fields → Option Instruction
unfolding variable_shift_instruction variable_shift_funcs when_numbered
decode_variable_shift f =
    when_numbered variable_shift_funcs f.func_field
      (λ name. when (f.shift_amount == 0) (variable_shift_instruction f name))

unfoldable pub three_registers_instruction : Fields → String → Instruction
three_registers_instruction f name =
    instruction name (f.register_d ∷ f.register_s ∷ f.register_t ∷ [])

unfoldable pub decode_three_registers : Fields → Option Instruction
unfolding three_registers_instruction three_reg_operand_funcs when_numbered
decode_three_registers f =
    when_numbered three_reg_operand_funcs f.func_field
      (λ name. when (f.shift_amount == 0) (three_registers_instruction f name))

unfoldable pub decode_jr : Fields → Option Instruction
decode_jr f =
    when (f.register_t == 0 && f.register_d == 0 && f.shift_amount == 0 && f.func_field == jr_func)
      (instruction "JR" (f.register_s ∷ []))

unfoldable pub decode_jalr : Fields → Option Instruction
decode_jalr f =
    when (f.register_t == 0 && f.shift_amount == 0 && f.func_field == jalr_func)
      (instruction "JALR" (f.register_d ∷ f.register_s ∷ []))

-- the block under `opcode == 0`
unfoldable pub decode_register : Fields → Option Instruction
unfolding decode_constant_shift decode_variable_shift decode_three_registers decode_jr decode_jalr
decode_register f =
    if f.opcode == 0
    then decode_constant_shift f
      or_try decode_variable_shift f
      or_try decode_three_registers f
      or_try decode_jr f
      or_try decode_jalr f
    else none

unfoldable pub word_directive : ℕ → Instruction
word_directive word = record (instruction ".word" []) { raw_word = word }

unfoldable pub decode_fields : ℕ → Fields → Instruction
unfolding word_directive decode_immediate decode_lui decode_branch decode_jump decode_memory
    decode_register
decode_fields word f =
    decode_immediate f
    or_else decode_lui f
    or_else decode_branch f
    or_else decode_jump word f
    or_else decode_memory f
    or_else decode_register f
    or_else word_directive word

unfoldable pub decode_instruction : ℕ → Instruction
unfolding fields decode_fields
decode_instruction word =
    if word == 0 then instruction "NOP" [] else decode_fields word (fields word)
