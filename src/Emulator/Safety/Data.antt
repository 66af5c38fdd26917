-- ===== src/Emulator/Safety/Data.antt =====
-- The methods that compute on registers are safe.
use mips.Prelude.{
  ℕ, ◌^◌, ◌<◌, ◌≤◌, ◌≡◌, length, Bool, false, arith, bit_and, String, if◌then◌else◌, is_one_of, [],
  ◌∷◌,
}
use mips.Prelude.Int.{shr_ℤ, ℤ}
use mips.Bits.Fields.{bit_and-le, bit_or-lt, bit_xor-lt}
use mips.Isa.{Instruction, sext16-lt, int32, of_int32}
use mips.Memory.Interface.{MemoryOps, MemoryLaws}
use mips.Executable.Image.{Executable}
use mips.Emulator.Execute.Data.{
  register_result, immediate_operand, immediate_result, less_than, shift_right_arithmetic,
  shift_result, do_move, set_destination, execute_register_arithmetic, execute_immediate_arithmetic,
  execute_load_upper_immediate, second_operand, execute_set_less_than, execute_constant_shift,
  execute_register_shift, move_value, execute_conditional_move,
}
use mips.Emulator.Safety.Fits.{Fits}
use mips.Emulator.Safety.Rules.{
  Runs, Any, bind-Safe, pure-Safe, operand-Safe, operand_value-Safe, set_reg-Safe, if-Safe,
}

register_result-lt :
    (name : String) (a b : ℕ) → a < 2 ^ 32 → b < 2 ^ 32 → register_result name a b < 2 ^ 32
unfolding register_result
register_result-lt name a b ha hb =
    ground (arith, bit_and-le a b, bit_or-lt 32 a b ha hb, bit_xor-lt 32 a b ha hb)

immediate_operand-lt : (i : Instruction) → Fits i → immediate_operand i < 2 ^ 32
unfolding immediate_operand
immediate_operand-lt i fit =
    ground (arith, sext16-lt i.signed_constant16 fit.signed-lt, fit.unsigned-lt)

immediate_result-lt :
    (name : String) (a b : ℕ) → a < 2 ^ 32 → b < 2 ^ 32 → immediate_result name a b < 2 ^ 32
unfolding immediate_result
immediate_result-lt name a b ha hb =
    ground (arith, bit_and-le a b, bit_or-lt 32 a b ha hb, bit_xor-lt 32 a b ha hb)

of_int32-lt : (z : ℤ) → of_int32 z < 2 ^ 32
of_int32-lt z = ground arith

div-le : (a b : ℕ) → a ≤ b → a ≤ b
div-le a b h = h

shift_result-lt :
    (left arithmetic right name : String) (val amount : ℕ)
    → val < 2 ^ 32
    → shift_result left arithmetic right name val amount < 2 ^ 32
unfolding shift_result shift_right_arithmetic
shift_result-lt left arithmetic right name val amount h =
    ground (arith, of_int32-lt (shr_ℤ (int32 val) amount))

module _ {M : Type 0} (ops : MemoryOps M) (laws : MemoryLaws ops) (exe : Executable) where
  pub set_destination-Safe :
      (i : Instruction) (result : ℕ)
      → Fits i
      → 1 ≤ length i.registers
      → result < 2 ^ 32
      → Runs ops laws exe Any (set_destination i result)
  unfolding set_destination
  set_destination-Safe i result fit h fits =
      bind-Safe ops laws exe (operand-Safe ops laws exe i 0 h fit.registers-lt)
        (λ r hr. set_reg-Safe ops laws exe r result hr fits)

  pub execute_register_arithmetic-Safe :
      (i : Instruction)
      → Fits i
      → 3 ≤ length i.registers
      → Runs ops laws exe Any (execute_register_arithmetic i)
  unfolding execute_register_arithmetic
  execute_register_arithmetic-Safe i fit h =
      bind-Safe ops laws exe (operand_value-Safe ops laws exe i 1 (omega arith) fit.registers-lt)
        (λ a ha.
          bind-Safe ops laws exe (operand_value-Safe ops laws exe i 2 h fit.registers-lt) (λ b hb.
            set_destination-Safe i (register_result i.name a b) fit (omega arith)
              (register_result-lt i.name a b ha hb)))

  pub execute_immediate_arithmetic-Safe :
      (i : Instruction)
      → Fits i
      → 2 ≤ length i.registers
      → Runs ops laws exe Any (execute_immediate_arithmetic i)
  unfolding execute_immediate_arithmetic
  execute_immediate_arithmetic-Safe i fit h =
      bind-Safe ops laws exe (operand_value-Safe ops laws exe i 1 h fit.registers-lt) (λ a ha.
        set_destination-Safe i (immediate_result i.name a (immediate_operand i)) fit (omega arith)
          (immediate_result-lt i.name a (immediate_operand i) ha (immediate_operand-lt i fit)))

  pub execute_load_upper_immediate-Safe :
      (i : Instruction)
      → Fits i
      → 1 ≤ length i.registers
      → Runs ops laws exe Any (execute_load_upper_immediate i)
  unfolding execute_load_upper_immediate
  execute_load_upper_immediate-Safe i fit h = set_destination-Safe i _ fit h (omega arith)

  second_operand-Safe :
      (i : Instruction)
      → Fits i
      → (is_one_of i.name ("SLTI" ∷ "SLTIU" ∷ []) ≡ false → 3 ≤ length i.registers)
      → Runs ops laws exe (λ v. v < 2 ^ 32) (second_operand i)
  unfolding second_operand
  second_operand-Safe i fit h =
      if-Safe ops laws exe (is_one_of i.name ("SLTI" ∷ "SLTIU" ∷ []))
        (λ e. pure-Safe ops laws exe _ (sext16-lt i.signed_constant16 fit.signed-lt))
        (λ e. operand_value-Safe ops laws exe i 2 (h e) fit.registers-lt)

  flag-lt : (b : Bool) → (if b then 1 else 0) < 2 ^ 32
  flag-lt b = ground arith

  pub execute_set_less_than-Safe :
      (i : Instruction)
      → Fits i
      → 2 ≤ length i.registers
      → (is_one_of i.name ("SLTI" ∷ "SLTIU" ∷ []) ≡ false → 3 ≤ length i.registers)
      → Runs ops laws exe Any (execute_set_less_than i)
  unfolding execute_set_less_than
  execute_set_less_than-Safe i fit h g =
      bind-Safe ops laws exe (operand_value-Safe ops laws exe i 1 h fit.registers-lt) (λ a ha.
        bind-Safe ops laws exe (second_operand-Safe i fit g)
          (λ b hb. set_destination-Safe i _ fit (omega arith) (flag-lt (less_than i.name a b))))

  pub execute_constant_shift-Safe :
      (i : Instruction)
      → Fits i
      → 2 ≤ length i.registers
      → Runs ops laws exe Any (execute_constant_shift i)
  unfolding execute_constant_shift
  execute_constant_shift-Safe i fit h =
      bind-Safe ops laws exe (operand_value-Safe ops laws exe i 1 h fit.registers-lt) (λ a ha.
        set_destination-Safe i _ fit (omega arith)
          (shift_result-lt "SLL" "SRA" "SRL" i.name a i.constant5 ha))

  pub execute_register_shift-Safe :
      (i : Instruction)
      → Fits i
      → 3 ≤ length i.registers
      → Runs ops laws exe Any (execute_register_shift i)
  unfolding execute_register_shift
  execute_register_shift-Safe i fit h =
      bind-Safe ops laws exe (operand_value-Safe ops laws exe i 2 h fit.registers-lt) (λ s hs.
        bind-Safe ops laws exe (operand_value-Safe ops laws exe i 1 (omega arith) fit.registers-lt)
          (λ a ha.
            set_destination-Safe i _ fit (omega arith)
              (shift_result-lt "SLLV" "SRAV" "SRLV" i.name a (bit_and s 0x1f) ha)))

  pub execute_conditional_move-Safe :
      (i : Instruction)
      → Fits i
      → 3 ≤ length i.registers
      → Runs ops laws exe Any (execute_conditional_move i)
  unfolding execute_conditional_move move_value
  execute_conditional_move-Safe i fit h =
      bind-Safe ops laws exe (operand_value-Safe ops laws exe i 2 h fit.registers-lt) (λ c hc.
        if-Safe ops laws exe (do_move i.name c)
          (λ e.
            bind-Safe ops laws exe
              (operand_value-Safe ops laws exe i 1 (omega arith) fit.registers-lt)
              (λ a ha. set_destination-Safe i a fit (omega arith) ha))
          (λ e. pure-Safe ops laws exe tt tt))
