-- ===== src/Emulator/Execute/Data.antt =====
-- The methods that compute on registers: arithmetic, comparison, shifts and moves.
use mips.Prelude.{
  ℕ, String, [], ◌∷◌, Bool, false, not, bit_and, bit_or, bit_xor, str_eq, is_one_of, ltb, ◌==◌,
  if◌then◌else◌,
}
use mips.Prelude.Int.{ltb_ℤ, shr_ℤ}
use mips.Isa.{Instruction, add32, sub32, not32, sext16, int32, of_int32, ◌<<◌, ◌>>>◌}
use mips.Emulator.State.{Exec, ◌>>=◌, pure, operand, operand_value, set_reg}

-- The switches on the name; a name that is not there leaves `result` at 0.
unfoldable pub register_result : String → ℕ → ℕ → ℕ
register_result name val1 val2 =
    if str_eq name "ADDU"
    then add32 val1 val2
    else if str_eq name "AND"
    then bit_and val1 val2
    else if str_eq name "OR"
    then bit_or val1 val2
    else if str_eq name "NOR"
    then not32 (bit_or val1 val2)
    else if str_eq name "SUBU"
    then sub32 val1 val2
    else if str_eq name "XOR"
    then bit_xor val1 val2
    else 0

unfoldable pub immediate_operand : Instruction → ℕ
immediate_operand inst =
    if str_eq inst.name "ADDIU" then sext16 inst.signed_constant16 else inst.unsigned_constant16

unfoldable pub immediate_result : String → ℕ → ℕ → ℕ
immediate_result name val1 val2 =
    if str_eq name "ADDIU"
    then add32 val1 val2
    else if str_eq name "ANDI"
    then bit_and val1 val2
    else if str_eq name "ORI"
    then bit_or val1 val2
    else if str_eq name "XORI"
    then bit_xor val1 val2
    else 0

unfoldable pub less_than : String → ℕ → ℕ → Bool
less_than name val1 val2 =
    if is_one_of name ("SLTI" ∷ "SLT" ∷ []) then ltb_ℤ (int32 val1) (int32 val2) else ltb val1 val2

-- x >> s on int32: the bits of the rounded quotient
unfoldable pub shift_right_arithmetic : ℕ → ℕ → ℕ
shift_right_arithmetic val amount = of_int32 (shr_ℤ (int32 val) amount)

-- `SLL` and `SLLV` and so on: the two methods have the same switch but for the names
unfoldable pub shift_result : String → String → String → String → ℕ → ℕ → ℕ
unfolding shift_right_arithmetic
shift_result left arithmetic right name val amount =
    if str_eq name left
    then val << amount
    else if str_eq name arithmetic
    then shift_right_arithmetic val amount
    else if str_eq name right
    then val >>> amount
    else 0

unfoldable pub do_move : String → ℕ → Bool
do_move name condition =
    if str_eq name "MOVN"
    then not (condition == 0)
    else if str_eq name "MOVZ"
    then condition == 0
    else false

module _ {M : Type 0} where
  -- `e.setReg(inst.Registers[0], result)`
  unfoldable pub set_destination : Instruction → ℕ → Exec M (Unit {0})
  unfolding operand set_reg
  set_destination inst result = do r ← operand inst 0; set_reg r result

  unfoldable pub execute_register_arithmetic : Instruction → Exec M (Unit {0})
  unfolding operand_value set_destination register_result
  execute_register_arithmetic inst = do
    val1 ← operand_value inst 1
    val2 ← operand_value inst 2
    set_destination inst (register_result inst.name val1 val2)

  unfoldable pub execute_immediate_arithmetic : Instruction → Exec M (Unit {0})
  unfolding operand_value set_destination immediate_result immediate_operand
  execute_immediate_arithmetic inst = do
    val1 ← operand_value inst 1
    set_destination inst (immediate_result inst.name val1 (immediate_operand inst))

  unfoldable pub execute_load_upper_immediate : Instruction → Exec M (Unit {0})
  unfolding set_destination
  execute_load_upper_immediate inst = set_destination inst (inst.unsigned_constant16 << 16)

  unfoldable pub second_operand : Instruction → Exec M ℕ
  unfolding operand_value pure
  second_operand inst =
      if is_one_of inst.name ("SLTI" ∷ "SLTIU" ∷ [])
      then pure (sext16 inst.signed_constant16)
      else operand_value inst 2

  unfoldable pub execute_set_less_than : Instruction → Exec M (Unit {0})
  unfolding operand_value second_operand set_destination less_than
  execute_set_less_than inst = do
    val1 ← operand_value inst 1
    val2 ← second_operand inst
    set_destination inst (if less_than inst.name val1 val2 then 1 else 0)

  unfoldable pub execute_constant_shift : Instruction → Exec M (Unit {0})
  unfolding operand_value set_destination shift_result
  execute_constant_shift inst = do
    val ← operand_value inst 1
    set_destination inst (shift_result "SLL" "SRA" "SRL" inst.name val inst.constant5)

  unfoldable pub execute_register_shift : Instruction → Exec M (Unit {0})
  unfolding operand_value set_destination shift_result
  execute_register_shift inst = do
    amount ← operand_value inst 2
    val ← operand_value inst 1
    set_destination inst (shift_result "SLLV" "SRAV" "SRLV" inst.name val (bit_and amount 0x1f))

  unfoldable pub move_value : Instruction → Exec M (Unit {0})
  unfolding operand_value set_destination
  move_value inst = do value ← operand_value inst 1; set_destination inst value

  unfoldable pub execute_conditional_move : Instruction → Exec M (Unit {0})
  unfolding operand_value do_move move_value pure
  execute_conditional_move inst = do
    condition ← operand_value inst 2
    if do_move inst.name condition then move_value inst else pure tt
