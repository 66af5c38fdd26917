-- ===== src/Emulator/Safety/Execute.antt =====
-- The switch of `Step`: each case is safe, whatever the instruction of that name.
use mips.Emulator.Execute.Control.{execute_branch, execute_jump}
use mips.Emulator.Execute.Data.{execute_set_less_than}
use mips.Prelude.{
  ℕ, ◌≤◌, ◌≡◌, length, true, false, arith, String, str_eq, ◌||◌, List, [], ◌∷◌, All, is_one_of,
  is_one_of-all,
}
use mips.Isa.{Instruction}
use mips.Memory.Interface.{MemoryOps, MemoryLaws}
use mips.Executable.Image.{Executable}
use mips.Emulator.Step.{
  branch_names, jump_names, memory_names, register_arithmetic_names, immediate_arithmetic_names,
  set_less_than_names, constant_shift_names, register_shift_names, conditional_move_names, execute,
}
use mips.Emulator.Safety.Fits.{Fits, min_registers}
use mips.Emulator.Safety.Rules.{Runs, Any, pure-Safe, raise-Safe, if-Safe}
use mips.Emulator.Safety.Data.{
  execute_register_arithmetic-Safe, execute_immediate_arithmetic-Safe,
  execute_load_upper_immediate-Safe, execute_set_less_than-Safe, execute_constant_shift-Safe,
  execute_register_shift-Safe, execute_conditional_move-Safe,
}
use mips.Emulator.Safety.Transfer.{execute_memory-Safe}
use mips.Emulator.Safety.Control.{execute_branch-Safe, execute_jump-Safe}

-- A case of the switch reads at most the registers that each of its names has.
enough_for :
    (n : ℕ) (names : List String) (i : Instruction)
    → All (λ s. n ≤ min_registers s) names
    → Fits i
    → is_one_of i.name names ≡ true
    → n ≤ length i.registers
enough_for n names i all fit h =
    omega (arith, fit.enough, is_one_of-all (λ s. n ≤ min_registers s) i.name names h all)

abbrev BranchNeeds : String → Type 0
BranchNeeds s = str_eq s "BEQ" || str_eq s "BNE" ≡ true → 2 ≤ min_registers s

abbrev JumpNeeds : String → Type 0
JumpNeeds s = str_eq s "J" || str_eq s "JAL" ≡ false → 1 ≤ min_registers s

abbrev SetLessThanNeeds : String → Type 0
SetLessThanNeeds s = is_one_of s ("SLTI" ∷ "SLTIU" ∷ []) ≡ false → 3 ≤ min_registers s

branch_needs : All BranchNeeds branch_names
unfolding min_registers
branch_needs = grind arith

jump_needs : All JumpNeeds jump_names
unfolding min_registers
jump_needs = grind arith

set_less_than_needs : All SetLessThanNeeds set_less_than_names
unfolding min_registers
set_less_than_needs = grind arith

ones : All (λ s. 1 ≤ min_registers s) branch_names × All (λ s. 1 ≤ min_registers s) memory_names
unfolding min_registers
ones = omega arith

twos :
    All (λ s. 2 ≤ min_registers s) immediate_arithmetic_names
    × All (λ s. 2 ≤ min_registers s) set_less_than_names
    × All (λ s. 2 ≤ min_registers s) constant_shift_names
unfolding min_registers
twos = omega arith

threes :
    All (λ s. 3 ≤ min_registers s) register_arithmetic_names
    × All (λ s. 3 ≤ min_registers s) register_shift_names
    × All (λ s. 3 ≤ min_registers s) conditional_move_names
unfolding min_registers
threes = omega arith

lui_needs : All (λ s. 1 ≤ min_registers s) ("LUI" ∷ [])
unfolding min_registers
lui_needs = omega arith

lui_enough :
    (i : Instruction) → Fits i → is_one_of i.name ("LUI" ∷ []) ≡ true → 1 ≤ length i.registers
lui_enough i fit h = enough_for 1 ("LUI" ∷ []) i lui_needs fit h

module _ {M : Type 0} (ops : MemoryOps M) (laws : MemoryLaws ops) (exe : Executable) where
  branch_case :
      (i : Instruction)
      → Fits i
      → is_one_of i.name branch_names ≡ true
      → Runs ops laws exe Any (execute_branch i)
  branch_case i fit h =
      execute_branch-Safe ops laws exe i fit (enough_for 1 branch_names i ones.0 fit h) (λ two.
        omega (arith, fit.enough, is_one_of-all BranchNeeds i.name branch_names h branch_needs two))

  jump_case :
      (i : Instruction)
      → Fits i
      → is_one_of i.name jump_names ≡ true
      → Runs ops laws exe Any (execute_jump i)
  jump_case i fit h = execute_jump-Safe ops laws exe i fit (λ other.
      omega (arith, fit.enough, is_one_of-all JumpNeeds i.name jump_names h jump_needs other))

  set_less_than_case :
      (i : Instruction)
      → Fits i
      → is_one_of i.name set_less_than_names ≡ true
      → Runs ops laws exe Any (execute_set_less_than i)
  set_less_than_case i fit h =
      execute_set_less_than-Safe ops laws exe i fit
        (enough_for 2 set_less_than_names i twos.1 fit h)
        (λ other. omega (
          arith,
          fit.enough,
          is_one_of-all SetLessThanNeeds i.name set_less_than_names h set_less_than_needs other,
        ))

  pub execute-Safe : (i : Instruction) → Fits i → Runs ops laws exe Any (execute ops i)
  unfolding execute
  execute-Safe i fit =
      if-Safe ops laws exe (is_one_of i.name ("NOP" ∷ [])) (λ _. pure-Safe ops laws exe tt tt)
        (λ _. if-Safe ops laws exe (is_one_of i.name branch_names) (branch_case i fit) (λ _.
          if-Safe ops laws exe (is_one_of i.name jump_names) (jump_case i fit) (λ _.
            if-Safe ops laws exe (is_one_of i.name memory_names)
              (λ h.
                execute_memory-Safe ops laws exe i fit (enough_for 1 memory_names i ones.1 fit h))
              (λ _.
                if-Safe ops laws exe (is_one_of i.name register_arithmetic_names)
                  (λ h.
                    execute_register_arithmetic-Safe ops laws exe i fit
                      (enough_for 3 register_arithmetic_names i threes.0 fit h))
                  (λ _.
                    if-Safe ops laws exe (is_one_of i.name immediate_arithmetic_names)
                      (λ h.
                        execute_immediate_arithmetic-Safe ops laws exe i fit
                          (enough_for 2 immediate_arithmetic_names i twos.0 fit h))
                      (λ _.
                        if-Safe ops laws exe (is_one_of i.name ("LUI" ∷ []))
                          (λ h.
                            execute_load_upper_immediate-Safe ops laws exe i fit
                              (lui_enough i fit h))
                          (λ _.
                            if-Safe ops laws exe (is_one_of i.name set_less_than_names)
                              (set_less_than_case i fit)
                              (λ _.
                                if-Safe ops laws exe (is_one_of i.name constant_shift_names)
                                  (λ h.
                                    execute_constant_shift-Safe ops laws exe i fit
                                      (enough_for 2 constant_shift_names i twos.2 fit h))
                                  (λ _.
                                    if-Safe ops laws exe (is_one_of i.name register_shift_names)
                                      (λ h.
                                        execute_register_shift-Safe ops laws exe i fit
                                          (enough_for 3 register_shift_names i threes.1 fit h))
                                      (λ _.
                                        if-Safe ops laws exe
                                          (is_one_of i.name conditional_move_names)
                                          (λ h.
                                            execute_conditional_move-Safe ops laws exe i fit (
                                              enough_for 3 conditional_move_names i threes.2 fit h))
                                          (λ _. raise-Safe ops laws exe _)))))))))))
