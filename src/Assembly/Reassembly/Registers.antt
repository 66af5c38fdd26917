-- ===== src/Assembly/Reassembly/Registers.antt =====
-- Instructions on registers and memory, and jumps.
use mips.Prelude.{ℕ, ◌^◌, ◌<◌, refl, arith, [], ◌∷◌, All}
use mips.Isa.{instruction}
use mips.Coding.Tables.{
  j_type_opcodes, memory_opcodes, constant_shift_funcs, variable_shift_funcs,
  three_reg_operand_funcs,
}
use mips.Coding.Decode.{
  Fields, jump_instruction, memory_instruction, constant_shift_instruction,
  variable_shift_instruction, three_registers_instruction,
}
use mips.Assembly.Parse.{parse_tokenized_instruction}
use mips.Assembly.Render.{render}
use mips.Assembly.Lines.{line_instruction}
use mips.Assembly.Reassembly.Reads.{Reads, unchanged}

module _ (f : Fields) where
  pub memory-Reads : All (λ e. Reads (memory_instruction f e.1)) memory_opcodes
  unfolding memory_instruction memory_opcodes render line_instruction parse_tokenized_instruction
  memory-Reads = (
    unchanged _ refl refl,
    (
      unchanged _ refl refl,
      (unchanged _ refl refl, (unchanged _ refl refl, (unchanged _ refl refl, tt))),
    ),
  )

  pub constant_shift-Reads :
      f.shift_amount < 2 ^ 5
      → All (λ e. Reads (constant_shift_instruction f e.1)) constant_shift_funcs
  unfolding constant_shift_instruction constant_shift_funcs render line_instruction
      parse_tokenized_instruction
  constant_shift-Reads shift_amount-lt = (
    unchanged _ refl (ground arith),
    (unchanged _ refl (ground arith), (unchanged _ refl (ground arith), tt)),
  )

  pub variable_shift-Reads :
      All (λ e. Reads (variable_shift_instruction f e.1)) variable_shift_funcs
  unfolding variable_shift_instruction variable_shift_funcs render line_instruction
      parse_tokenized_instruction
  variable_shift-Reads =
      (unchanged _ refl refl, (unchanged _ refl refl, (unchanged _ refl refl, tt)))

  pub three_registers-Reads :
      All (λ e. Reads (three_registers_instruction f e.1)) three_reg_operand_funcs
  unfolding three_registers_instruction three_reg_operand_funcs render line_instruction
      parse_tokenized_instruction
  three_registers-Reads = (
    unchanged _ refl refl,
    (
      unchanged _ refl refl,
      (
        unchanged _ refl refl,
        (
          unchanged _ refl refl,
          (
            unchanged _ refl refl,
            (
              unchanged _ refl refl,
              (
                unchanged _ refl refl,
                (unchanged _ refl refl, (unchanged _ refl refl, (unchanged _ refl refl, tt))),
              ),
            ),
          ),
        ),
      ),
    ),
  )

  pub jr-Reads : Reads (instruction "JR" (f.register_s ∷ []))
  unfolding render line_instruction parse_tokenized_instruction
  jr-Reads = unchanged _ refl refl

  pub jalr-Reads : Reads (instruction "JALR" (f.register_d ∷ f.register_s ∷ []))
  unfolding render line_instruction parse_tokenized_instruction
  jalr-Reads = unchanged _ refl refl

pub jump-Reads : (w : ℕ) → All (λ e. Reads (jump_instruction w e.1)) j_type_opcodes
unfolding jump_instruction j_type_opcodes render line_instruction parse_tokenized_instruction
jump-Reads w = (unchanged _ refl refl, (unchanged _ refl refl, tt))

pub nop-Reads : Reads (instruction "NOP" [])
unfolding render line_instruction parse_tokenized_instruction
nop-Reads = unchanged _ refl refl
