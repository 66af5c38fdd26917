-- ===== src/Emulator/Safety/Decoded.antt =====
-- Whatever word stands in an executable, the emulator can run what it decodes to.
use mips.Prelude.{ℕ, ◌^◌, ◌<◌, [], arith, ◌==◌, Bool-cases, inl, inr}
use mips.Isa.{instruction}
use mips.Coding.Tables.{
  two_operand_immediate_opcodes, j_type_opcodes, memory_opcodes, constant_shift_funcs,
  variable_shift_funcs, three_reg_operand_funcs,
}
use mips.Coding.Decode.{
  Fields, fields, immediate_instruction, lui_instruction, branch_instruction, jump_instruction,
  memory_instruction, constant_shift_instruction, variable_shift_instruction,
  three_registers_instruction, word_directive, decode_instruction,
}
use mips.Coding.Families.{Families, decode_fields-all}
use mips.Coding.RoundTrip.Layout.{FieldsOf, fields-FieldsOf}
use mips.Emulator.Safety.Fits.{Fits, min_registers}

fields-Families : (w : ℕ) (f : Fields) → FieldsOf w f → Families Fits w f
unfolding min_registers immediate_instruction lui_instruction branch_instruction jump_instruction
    memory_instruction constant_shift_instruction variable_shift_instruction
    three_registers_instruction word_directive two_operand_immediate_opcodes j_type_opcodes
    memory_opcodes constant_shift_funcs variable_shift_funcs three_reg_operand_funcs
fields-Families w f of = omega arith

nop-Fits : Fits (instruction "NOP" [])
unfolding min_registers
nop-Fits = omega arith

-- Every 32-bit word decodes to an instruction that fits the emulator: it has the registers that its
-- name needs, with indices below 32, and constants below 2 ^ 16.
pub decode_instruction-Fits : (w : ℕ) → w < 2 ^ 32 → Fits (decode_instruction w)
unfolding decode_instruction
decode_instruction-Fits w h = elim (Bool-cases (w == 0)) [
  | inl zero ↦ rw zero nop-Fits
  | inr other ↦
      rw other
        (decode_fields-all Fits w (fields w) (fields-Families w (fields w) (fields-FieldsOf w h)))
]
