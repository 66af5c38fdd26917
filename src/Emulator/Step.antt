-- ===== src/Emulator/Step.antt =====
-- `Done` and `Step`.
use mips.Prelude.{
  [], ◌∷◌, String, List, Bool, true, false, none, some, leb, if◌then◌else◌, is_one_of,
}
use mips.Isa.{Instruction, ok, unknown_instruction, add32}
use mips.Memory.Interface.{MemoryOps}
use mips.Executable.Image.{get, end}
use mips.Emulator.State.{Emulator, Exec, pure, raise}
use mips.Emulator.Execute.Control.{execute_branch, execute_jump}
use mips.Emulator.Execute.Data.{
  execute_register_arithmetic, execute_immediate_arithmetic, execute_load_upper_immediate,
  execute_set_less_than, execute_constant_shift, execute_register_shift, execute_conditional_move,
}
use mips.Emulator.Execute.Transfer.{execute_memory}

-- The cases of the switch in `Step`.
abbrev pub branch_names : List String
branch_names = "BEQ" ∷ "BGEZ" ∷ "BGTZ" ∷ "BLEZ" ∷ "BLTZ" ∷ "BNE" ∷ []

abbrev pub jump_names : List String
jump_names = "J" ∷ "JR" ∷ "JAL" ∷ "JALR" ∷ []

abbrev pub memory_names : List String
memory_names = "LB" ∷ "LBU" ∷ "LW" ∷ "SB" ∷ "SW" ∷ []

abbrev pub register_arithmetic_names : List String
register_arithmetic_names = "ADDU" ∷ "AND" ∷ "NOR" ∷ "OR" ∷ "SUBU" ∷ "XOR" ∷ []

abbrev pub immediate_arithmetic_names : List String
immediate_arithmetic_names = "ADDIU" ∷ "ANDI" ∷ "ORI" ∷ "XORI" ∷ []

abbrev pub set_less_than_names : List String
set_less_than_names = "SLT" ∷ "SLTI" ∷ "SLTIU" ∷ "SLTU" ∷ []

abbrev pub constant_shift_names : List String
constant_shift_names = "SLL" ∷ "SRL" ∷ "SRA" ∷ []

abbrev pub register_shift_names : List String
register_shift_names = "SLLV" ∷ "SRLV" ∷ "SRAV" ∷ []

abbrev pub conditional_move_names : List String
conditional_move_names = "MOVN" ∷ "MOVZ" ∷ []

module _ {M : Type 0} where
  unfoldable pub is_done : Emulator M → Bool
  is_done e = if e.jump_next then false else leb (end e.executable) e.program_counter

  -- The program counter moves, and the delay slot is entered or left, before the instruction runs.
  unfoldable pub advance : Emulator M → Emulator M
  advance e =
      if e.jump_next
      then record e { delay_slot = true; jump_next = false; program_counter = e.jump_target }
      else record e { delay_slot = false; program_counter = add32 e.program_counter 4 }

module _ {M : Type 0} (ops : MemoryOps M) where
  unfoldable pub execute : Instruction → Exec M (Unit {0})
  unfolding pure raise
  execute inst =
      if is_one_of inst.name ("NOP" ∷ [])
      then pure tt
      else if is_one_of inst.name branch_names
      then execute_branch inst
      else if is_one_of inst.name jump_names
      then execute_jump inst
      else if is_one_of inst.name memory_names
      then execute_memory ops inst
      else if is_one_of inst.name register_arithmetic_names
      then execute_register_arithmetic inst
      else if is_one_of inst.name immediate_arithmetic_names
      then execute_immediate_arithmetic inst
      else if is_one_of inst.name ("LUI" ∷ [])
      then execute_load_upper_immediate inst
      else if is_one_of inst.name set_less_than_names
      then execute_set_less_than inst
      else if is_one_of inst.name constant_shift_names
      then execute_constant_shift inst
      else if is_one_of inst.name register_shift_names
      then execute_register_shift inst
      else if is_one_of inst.name conditional_move_names
      then execute_conditional_move inst
      else raise (unknown_instruction inst.name)

  -- A word that is not in the executable is a NOP.
  unfoldable pub step : Exec M (Unit {0})
  unfolding execute advance
  step e = elim (get e.executable e.program_counter) [
    | none ↦ (ok tt, advance e)
    | some inst ↦ execute inst (advance e)
  ]
