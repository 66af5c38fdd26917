-- ===== src/Coding/Encode.antt =====
-- `Instruction.Encode`. Each block of the source that may return is a function into `Option`, and a
-- test of `len(inst.Registers)` is a match on the list.
use mips.Prelude.{
  ◌||◌, ℕ, String, List, [], ◌∷◌, Option, none, some, bit_and, bit_or, str_eq, if◌then◌else◌, when,
  ◌or_else◌,
}
use mips.Isa.{
  Instruction, Result, ok, err, ◌>>=◌, register_count, unknown_instruction, u16, u32, ◌<<◌, ◌>>>◌,
}
use mips.Coding.Tables.{
  OpcodeTable, two_operand_immediate_opcodes, branch_opcodes, j_type_opcodes, memory_opcodes,
  constant_shift_funcs, variable_shift_funcs, three_reg_operand_funcs, lui_opcode, jr_func,
  jalr_func, number_for_instruction,
}
use mips.Coding.Target.{SymbolTable, instruction_branch_offset, instruction_jump_base}

unfoldable pub immediate_word : Instruction → ℕ → List ℕ → Result ℕ
immediate_word inst opcode (r0 ∷ r1 ∷ []) = ok (
    bit_or
      (bit_or (bit_or (bit_or (opcode << 26) (u32 r1 << 21)) (u32 r0 << 16))
        (u16 inst.signed_constant16))
      inst.unsigned_constant16)
immediate_word inst opcode _ = err (register_count inst.name)

unfoldable pub lui_word : Instruction → List ℕ → Result ℕ
lui_word inst (r0 ∷ []) =
    ok (bit_or (bit_or (lui_opcode << 26) (u32 r0 << 16)) inst.unsigned_constant16)
lui_word inst _ = err (register_count inst.name)

-- The registers are tested after the offset is found.
unfoldable pub branch_word : Instruction → ℕ → ℕ → List ℕ → Result ℕ
branch_word inst opcode branch_offset (r0 ∷ r1 ∷ []) =
    if str_eq inst.name "BEQ" || str_eq inst.name "BNE"
    then ok (
        bit_or (bit_or (bit_or (opcode << 26) (u32 r0 << 21)) (u32 r1 << 16))
          (bit_and (branch_offset >>> 2) 0xffff))
    else err (register_count inst.name)
branch_word inst opcode branch_offset (r0 ∷ []) =
    if str_eq inst.name "BEQ" || str_eq inst.name "BNE"
    then err (register_count inst.name)
    else let reg_t : ℕ = if str_eq inst.name "BGEZ" then 1 else 0 in
      ok (
        bit_or (bit_or (bit_or (opcode << 26) (u32 r0 << 21)) (reg_t << 16))
          (bit_and (branch_offset >>> 2) 0xffff))
branch_word inst opcode branch_offset _ = err (register_count inst.name)

unfoldable pub jump_word : Instruction → ℕ → ℕ → SymbolTable → List ℕ → Result ℕ
jump_word inst opcode inst_addr symbols [] = do
  jump_addr ← instruction_jump_base inst inst_addr symbols
  ok (bit_or (opcode << 26) (jump_addr >>> 2))
jump_word inst opcode inst_addr symbols _ = err (register_count inst.name)

unfoldable pub memory_word : Instruction → ℕ → List ℕ → Result ℕ
memory_word inst opcode (r0 ∷ []) = ok (
    bit_or
      (bit_or (bit_or (opcode << 26) (u32 inst.memory_reference.register << 21)) (u32 r0 << 16))
      (u16 inst.memory_reference.offset))
memory_word inst opcode _ = err (register_count inst.name)

unfoldable pub constant_shift_word : Instruction → ℕ → List ℕ → Result ℕ
constant_shift_word inst func (r0 ∷ r1 ∷ []) =
    ok (bit_or (bit_or (bit_or (u32 r1 << 16) (u32 r0 << 11)) (inst.constant5 << 6)) func)
constant_shift_word inst func _ = err (register_count inst.name)

unfoldable pub variable_shift_word : Instruction → ℕ → List ℕ → Result ℕ
variable_shift_word inst func (r0 ∷ r1 ∷ r2 ∷ []) =
    ok (bit_or (bit_or (bit_or (u32 r2 << 21) (u32 r1 << 16)) (u32 r0 << 11)) func)
variable_shift_word inst func _ = err (register_count inst.name)

unfoldable pub three_registers_word : Instruction → ℕ → List ℕ → Result ℕ
three_registers_word inst func (r0 ∷ r1 ∷ r2 ∷ []) =
    ok (bit_or (bit_or (bit_or (u32 r1 << 21) (u32 r2 << 16)) (u32 r0 << 11)) func)
three_registers_word inst func _ = err (register_count inst.name)

unfoldable pub jr_word : Instruction → List ℕ → Result ℕ
jr_word inst (r0 ∷ []) = ok (bit_or (u32 r0 << 21) jr_func)
jr_word inst _ = err (register_count inst.name)

unfoldable pub jalr_word : Instruction → List ℕ → Result ℕ
jalr_word inst (r0 ∷ []) = ok (bit_or (bit_or (u32 r0 << 21) (31 << 11)) jalr_func)
jalr_word inst (r0 ∷ r1 ∷ []) = ok (bit_or (bit_or (u32 r1 << 21) (u32 r0 << 11)) jalr_func)
jalr_word inst _ = err (register_count inst.name)

unfoldable pub nop_word : Instruction → List ℕ → Result ℕ
nop_word inst [] = ok 0
nop_word inst _ = err (register_count inst.name)

-- `if number, ok := numberForInstruction(m, name); ok { return … }`
unfoldable pub when_named : OpcodeTable → String → (ℕ → Result ℕ) → Option (Result ℕ)
unfolding number_for_instruction
when_named m name word = elim (number_for_instruction m name) [
  | none ↦ none
  | some number ↦ some (word number)
]

-- BGEZ shares the opcode of BLTZ.
unfoldable pub branch_name : String → String
branch_name name = if str_eq name "BGEZ" then "BLTZ" else name

unfoldable pub encode : Instruction → ℕ → SymbolTable → Result ℕ
unfolding when_named branch_name two_operand_immediate_opcodes branch_opcodes j_type_opcodes
    memory_opcodes constant_shift_funcs variable_shift_funcs three_reg_operand_funcs
encode inst inst_addr symbols =
    if str_eq inst.name ".word"
    then ok inst.raw_word
    else if str_eq inst.name "NOP"
    then nop_word inst inst.registers
    else when_named two_operand_immediate_opcodes inst.name
        (λ opcode. immediate_word inst opcode inst.registers)
      or_else when (str_eq inst.name "LUI") (lui_word inst inst.registers)
      or_else when_named branch_opcodes (branch_name inst.name) (λ opcode. do
        branch_offset ← instruction_branch_offset inst inst_addr symbols
        branch_word inst opcode branch_offset inst.registers)
      or_else when_named j_type_opcodes inst.name
          (λ opcode. jump_word inst opcode inst_addr symbols inst.registers)
      or_else when_named memory_opcodes inst.name (λ opcode. memory_word inst opcode inst.registers)
      or_else when_named constant_shift_funcs inst.name
          (λ func. constant_shift_word inst func inst.registers)
      or_else when_named variable_shift_funcs inst.name
          (λ func. variable_shift_word inst func inst.registers)
      or_else when_named three_reg_operand_funcs inst.name
          (λ func. three_registers_word inst func inst.registers)
      or_else when (str_eq inst.name "JR") (jr_word inst inst.registers)
      or_else when (str_eq inst.name "JALR") (jalr_word inst inst.registers)
      or_else err (unknown_instruction inst.name)
