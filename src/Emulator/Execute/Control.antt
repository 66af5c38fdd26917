-- ===== src/Emulator/Execute/Control.antt =====
-- `executeBranch` and `executeJump`.
use mips.Prelude.{
  ℕ, ◌-◌, Bool, true, not, ◌||◌, bit_and, bit_or, str_eq, bool_eq, ◌==◌, if◌then◌else◌, length,
}
use mips.Prelude.Int.{ℤ, pos, ltb_ℤ, eqb_ℤ}
use mips.Isa.{
  Instruction, branch_in_delay_slot, jump_in_delay_slot, misaligned_address, add32, sub32, int32,
}
use mips.Coding.Target.{instruction_branch_offset, instruction_jump_base}
use mips.Emulator.State.{
  Exec, ◌>>=◌, ◌>>◌, pure, raise, current, modify, operand, get_reg, operand_value, write_reg,
  set_reg, instruction_error, checked,
}

module _ {M : Type 0} where
  unfoldable pub set_jump_next : Bool → Exec M (Unit {0})
  unfolding modify
  set_jump_next b = modify (λ e. record e { jump_next = b })

  -- the switch of `executeBranch` on the name, with `val1`
  unfoldable pub compare_registers : Instruction → ℤ → Exec M (Unit {0})
  unfolding operand_value set_jump_next
  compare_registers inst val1 = do
    val2 ← operand_value inst 1
    set_jump_next (bool_eq (eqb_ℤ val1 (int32 val2)) (str_eq inst.name "BEQ"))

  unfoldable pub decide_branch : Instruction → ℤ → Exec M (Unit {0})
  unfolding compare_registers set_jump_next pure
  decide_branch inst val1 =
      if str_eq inst.name "BEQ" || str_eq inst.name "BNE"
      then compare_registers inst val1
      else if str_eq inst.name "BGEZ"
      then set_jump_next (not (ltb_ℤ val1 (pos 0)))
      else if str_eq inst.name "BGTZ"
      then set_jump_next (ltb_ℤ (pos 0) val1)
      else if str_eq inst.name "BLEZ"
      then set_jump_next (not (ltb_ℤ (pos 0) val1))
      else if str_eq inst.name "BLTZ"
      then set_jump_next (ltb_ℤ val1 (pos 0))
      else pure tt

  -- `executeBranch` after its first test
  unfoldable pub branch_from : Instruction → Exec M (Unit {0})
  unfolding checked current modify operand_value decide_branch
  branch_from inst = do
    e ← current
    offset ←
        checked (instruction_branch_offset inst (sub32 e.program_counter 4) e.executable.symbols)
    modify (λ s. record s { jump_target = add32 s.program_counter offset })
    val1 ← operand_value inst 0
    decide_branch inst (int32 val1)

  unfoldable pub execute_branch : Instruction → Exec M (Unit {0})
  unfolding raise branch_from
  execute_branch inst e = if e.delay_slot then raise branch_in_delay_slot e else branch_from inst e

  -- `inst.Registers[len(inst.Registers)-1]`; the index -1 of an empty slice panics
  unfoldable pub last_operand : Instruction → Exec M ℕ
  unfolding operand
  last_operand inst = operand inst (length inst.registers - 1)

  -- JAL saves the address after the delay slot.
  unfoldable pub link_pointer : Instruction → Exec M (Unit {0})
  unfolding write_reg pure
  link_pointer inst e =
      if str_eq inst.name "JAL" then write_reg 31 (add32 e.program_counter 4) e else pure tt e

  -- `J` and `JAL`
  unfoldable pub jump_to_pointer : Instruction → Exec M (Unit {0})
  unfolding checked current modify link_pointer
  jump_to_pointer inst = do
    e ← current
    offset ← checked (instruction_jump_base inst (sub32 e.program_counter 4) e.executable.symbols)
    modify (λ s. record s {
      jump_target = bit_or (bit_and s.program_counter 0xf0000000) offset;
      jump_next = true;
    })
    link_pointer inst

  -- `destReg` of JALR: 31, or the first of two registers
  unfoldable pub link_register : Instruction → Exec M ℕ
  unfolding operand pure
  link_register inst = if length inst.registers == 2 then operand inst 0 else pure 31

  unfoldable pub link_jalr : Instruction → Exec M (Unit {0})
  unfolding link_register current set_reg
  link_jalr inst = do
    e ← current
    dest_reg ← link_register inst
    set_reg dest_reg (add32 e.program_counter 4)

  unfoldable pub take_register_jump : Instruction → ℕ → Exec M (Unit {0})
  unfolding modify link_jalr pure
  take_register_jump inst new_address = do
    modify (λ s. record s { jump_target = new_address; jump_next = true })
    if str_eq inst.name "JALR" then link_jalr inst else pure tt

  -- `JR` and `JALR`
  unfoldable pub jump_to_register : Instruction → Exec M (Unit {0})
  unfolding last_operand get_reg instruction_error take_register_jump
  jump_to_register inst = do
    r ← last_operand inst
    new_address ← get_reg r
    if bit_and new_address 3 == 0
        then take_register_jump inst new_address
        else instruction_error misaligned_address

  unfoldable pub execute_jump : Instruction → Exec M (Unit {0})
  unfolding raise jump_to_pointer jump_to_register
  execute_jump inst e =
      if e.delay_slot
      then raise jump_in_delay_slot e
      else if str_eq inst.name "J" || str_eq inst.name "JAL"
      then jump_to_pointer inst e
      else jump_to_register inst e
