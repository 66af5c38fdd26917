-- ===== src/Coding/RoundTrip/Dispatch.antt =====
-- Each name of an opcode table leads `encode` to the block of that table, with the entry's number.
use mips.Prelude.{ℕ, String, List, ◌≡◌, refl, All, Option, some, lookup}
use mips.Prelude
use mips.Isa.{Instruction, Result}
use mips.Coding.Tables.{
  two_operand_immediate_opcodes, j_type_opcodes, memory_opcodes, constant_shift_funcs,
  variable_shift_funcs, three_reg_operand_funcs,
}
use mips.Coding.Target.{SymbolTable}
use mips.Coding.Encode.{
  encode, immediate_word, jump_word, memory_word, constant_shift_word, variable_shift_word,
  three_registers_word,
}

module _ (inst_addr : ℕ) (symbols : SymbolTable) where
  abbrev pub Dispatches : (Instruction → ℕ → List ℕ → Result ℕ) → ℕ × String → Type 0
  Dispatches word (number, name) =
      (i : Instruction)
      → encode (record i { name = name }) inst_addr symbols
        ≡ word (record i { name = name }) number i.registers

  abbrev pub jump_block : Instruction → ℕ → List ℕ → Result ℕ
  jump_block i number registers = jump_word i number inst_addr symbols registers

  pub immediate-Dispatches :
      (number : ℕ) {name : String}
      → lookup number two_operand_immediate_opcodes ≡ some name
      → Dispatches immediate_word (number, name)
  unfolding encode
  immediate-Dispatches number =
      Prelude.All-lookup (Dispatches immediate_word) two_operand_immediate_opcodes number
        (λ i. refl, (λ i. refl, (λ i. refl, (λ i. refl, (λ i. refl, (λ i. refl, tt))))))

  pub jump-Dispatches :
      (number : ℕ) {name : String}
      → lookup number j_type_opcodes ≡ some name
      → Dispatches jump_block (number, name)
  unfolding encode
  jump-Dispatches number =
      Prelude.All-lookup (Dispatches jump_block) j_type_opcodes number (λ i. refl, (λ i. refl, tt))

  pub memory-Dispatches :
      (number : ℕ) {name : String}
      → lookup number memory_opcodes ≡ some name
      → Dispatches memory_word (number, name)
  unfolding encode
  memory-Dispatches number =
      Prelude.All-lookup (Dispatches memory_word) memory_opcodes number
        (λ i. refl, (λ i. refl, (λ i. refl, (λ i. refl, (λ i. refl, tt)))))

  pub constant_shift-Dispatches :
      (number : ℕ) {name : String}
      → lookup number constant_shift_funcs ≡ some name
      → Dispatches constant_shift_word (number, name)
  unfolding encode
  constant_shift-Dispatches number =
      Prelude.All-lookup (Dispatches constant_shift_word) constant_shift_funcs number
        (λ i. refl, (λ i. refl, (λ i. refl, tt)))

  pub variable_shift-Dispatches :
      (number : ℕ) {name : String}
      → lookup number variable_shift_funcs ≡ some name
      → Dispatches variable_shift_word (number, name)
  unfolding encode
  variable_shift-Dispatches number =
      Prelude.All-lookup (Dispatches variable_shift_word) variable_shift_funcs number
        (λ i. refl, (λ i. refl, (λ i. refl, tt)))

  pub three_registers-Dispatches :
      (number : ℕ) {name : String}
      → lookup number three_reg_operand_funcs ≡ some name
      → Dispatches three_registers_word (number, name)
  unfolding encode
  three_registers-Dispatches number =
      Prelude.All-lookup (Dispatches three_registers_word) three_reg_operand_funcs number (
        λ i. refl,
        (
          λ i. refl,
          (
            λ i. refl,
            (
              λ i. refl,
              (λ i. refl, (λ i. refl, (λ i. refl, (λ i. refl, (λ i. refl, (λ i. refl, tt)))))),
            ),
          ),
        ),
      )
