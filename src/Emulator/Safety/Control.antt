-- ===== src/Emulator/Safety/Control.antt =====
-- `executeBranch` and `executeJump` are safe.
use mips.Prelude.{
  ℕ, ◌^◌, ◌-◌, ◌<◌, ◌≤◌, ◌≡◌, ◌≢◌, length, Bool, true, false, arith, str_eq, bit_and, ◌||◌, ◌==◌,
  Option-cases, lookup_str, inl, inr,
}
use mips.Prelude.Int.{ℤ}
use mips.Bits.Fields.{bit_or-lt, bit_and-le, bit_and_mask}
use mips.Isa.{Instruction, ok, panic, add32, sub32, int32}
use mips.Memory.Interface.{MemoryOps, MemoryLaws}
use mips.Executable.Image.{Executable}
use mips.Coding.Target.{
  SymbolTable, symbol_offset, instruction_branch_offset, instruction_jump_base,
}
use mips.Emulator.State.{Emulator, pure, raise}
use mips.Emulator.Execute.Control.{
  set_jump_next, compare_registers, decide_branch, branch_from, execute_branch, last_operand,
  link_pointer, jump_to_pointer, link_register, link_jalr, take_register_jump, jump_to_register,
  execute_jump,
}
use mips.Emulator.Safety.Fits.{Fits}
use mips.Emulator.Safety.Rules.{
  Good, Runs, Any, bind-Safe, pure-Safe, current-Safe, modify-Safe, operand-Safe, get_reg-Safe,
  operand_value-Safe, write_reg-Safe, set_reg-Safe, instruction_error-Safe, checked-Safe, if-Safe,
  if-SafeAt,
}

branch_offset-ne-panic :
    (i : Instruction) (a : ℕ) (symbols : SymbolTable)
    → instruction_branch_offset i a symbols ≢ panic
unfolding instruction_branch_offset symbol_offset
branch_offset-ne-panic i a symbols h = ground arith

jump_base-ne-panic :
    (i : Instruction) (a : ℕ) (symbols : SymbolTable) → instruction_jump_base i a symbols ≢ panic
unfolding instruction_jump_base
jump_base-ne-panic i a symbols h = ground arith

jump_base-lt :
    (i : Instruction) (a : ℕ) (symbols : SymbolTable) (b : ℕ)
    → instruction_jump_base i a symbols ≡ ok b
    → b < 2 ^ 32
unfolding instruction_jump_base
jump_base-lt i a symbols b h = elim (Option-cases (lookup_str i.code_pointer.symbol symbols)) [
  | inl absent ↦ ground (arith, bit_and_mask 28 i.code_pointer.constant)
  | inr (addr, found) ↦
      ground (arith, bit_and_mask 28 i.code_pointer.constant, bit_and_mask 28 addr)
]

module _ {M : Type 0} (ops : MemoryOps M) (laws : MemoryLaws ops) (exe : Executable) where
  with_jump :
      (e : Emulator M) (t : ℕ) (b : Bool)
      → t < 2 ^ 32
      → Good ops laws exe e
      → Good ops laws exe (record e { jump_target = t; jump_next = b })
  with_jump e t b h v = record {
    size = v.size;
    words = v.words;
    zero = v.zero;
    counter-lt = v.counter-lt;
    target-lt = h;
    memory_valid = v.memory_valid;
    same_executable = v.same_executable;
  }

  set_jump_next-Safe : (b : Bool) → Runs ops laws exe Any (set_jump_next b)
  unfolding set_jump_next
  set_jump_next-Safe b =
      modify-Safe ops laws exe _ (λ e v. with_jump e e.jump_target b v.target-lt v)

  decide_branch-Safe :
      (i : Instruction) (val1 : ℤ)
      → Fits i
      → (str_eq i.name "BEQ" || str_eq i.name "BNE" ≡ true → 2 ≤ length i.registers)
      → Runs ops laws exe Any (decide_branch i val1)
  unfolding decide_branch compare_registers
  decide_branch-Safe i val1 fit h =
      if-Safe ops laws exe (str_eq i.name "BEQ" || str_eq i.name "BNE")
        (λ two.
          bind-Safe ops laws exe (operand_value-Safe ops laws exe i 1 (h two) fit.registers-lt)
            (λ v _. set_jump_next-Safe _))
        (λ _.
          if-Safe ops laws exe (str_eq i.name "BGEZ") (λ _. set_jump_next-Safe _)
            (λ _.
              if-Safe ops laws exe (str_eq i.name "BGTZ") (λ _. set_jump_next-Safe _)
                (λ _.
                  if-Safe ops laws exe (str_eq i.name "BLEZ") (λ _. set_jump_next-Safe _)
                    (λ _.
                      if-Safe ops laws exe (str_eq i.name "BLTZ") (λ _. set_jump_next-Safe _)
                        (λ _. pure-Safe ops laws exe tt tt)))))

  pub execute_branch-Safe :
      (i : Instruction)
      → Fits i
      → 1 ≤ length i.registers
      → (str_eq i.name "BEQ" || str_eq i.name "BNE" ≡ true → 2 ≤ length i.registers)
      → Runs ops laws exe Any (execute_branch i)
  unfolding execute_branch branch_from raise
  execute_branch-Safe i fit h g = record {
    at = λ e v. if-SafeAt ops laws exe Any e.delay_slot _ _ (λ _. v) (λ _. body.at e v);
  }
    where
      body : Runs ops laws exe Any (branch_from i)
      body = bind-Safe ops laws exe (current-Safe ops laws exe) (λ e _.
          bind-Safe ops laws exe {Q = Any}
            (checked-Safe ops laws exe _
              (branch_offset-ne-panic i (sub32 e.program_counter 4) e.executable.symbols)
              (λ _ _. tt))
            (λ offset _.
              bind-Safe ops laws exe
                (modify-Safe ops laws exe _
                  (λ s v. with_jump s (add32 s.program_counter offset) s.jump_next (omega arith) v))
                (λ _ _.
                  bind-Safe ops laws exe (operand_value-Safe ops laws exe i 0 h fit.registers-lt)
                    (λ val1 _. decide_branch-Safe i (int32 val1) fit g))))

  link_pointer-Safe : (i : Instruction) → Runs ops laws exe Any (link_pointer i)
  unfolding link_pointer pure
  link_pointer-Safe i = record {
    at = λ e v.
        if-SafeAt ops laws exe Any (str_eq i.name "JAL") _ _
          (λ _.
            (write_reg-Safe ops laws exe 31 (add32 e.program_counter 4) (omega arith) (omega arith)
                (omega arith)).at
              e v)
          (λ _. (v, tt));
  }

  region-lt : (e : Emulator M) → Good ops laws exe e → bit_and e.program_counter 0xf0000000 < 2 ^ 32
  region-lt e v = omega (arith, bit_and-le e.program_counter 0xf0000000, v.counter-lt)

  jump_to_pointer-Safe : (i : Instruction) → Runs ops laws exe Any (jump_to_pointer i)
  unfolding jump_to_pointer
  jump_to_pointer-Safe i = bind-Safe ops laws exe (current-Safe ops laws exe) (λ e _.
      bind-Safe ops laws exe {Q = λ b. b < 2 ^ 32}
        (checked-Safe ops laws exe _
          (jump_base-ne-panic i (sub32 e.program_counter 4) e.executable.symbols)
          (jump_base-lt i (sub32 e.program_counter 4) e.executable.symbols))
        (λ offset hb.
          bind-Safe ops laws exe
            (modify-Safe ops laws exe _ (λ s v.
              with_jump s _ true
                (bit_or-lt 32 (bit_and s.program_counter 0xf0000000) offset (region-lt s v) hb) v))
            (λ _ _. link_pointer-Safe i)))

  link_jalr-Safe :
      (i : Instruction) → Fits i → 1 ≤ length i.registers → Runs ops laws exe Any (link_jalr i)
  unfolding link_jalr link_register
  link_jalr-Safe i fit h = bind-Safe ops laws exe (current-Safe ops laws exe) (λ e _.
      bind-Safe ops laws exe {Q = λ r. r < 32}
        (if-Safe ops laws exe (length i.registers == 2)
          (λ _. operand-Safe ops laws exe i 0 h fit.registers-lt)
          (λ _. pure-Safe ops laws exe 31 (omega arith)))
        (λ r hr. set_reg-Safe ops laws exe r (add32 e.program_counter 4) hr (omega arith)))

  jump_to_register-Safe :
      (i : Instruction)
      → Fits i
      → 1 ≤ length i.registers
      → Runs ops laws exe Any (jump_to_register i)
  unfolding jump_to_register last_operand take_register_jump
  jump_to_register-Safe i fit h =
      bind-Safe ops laws exe
        (operand-Safe ops laws exe i (length i.registers - 1) (omega arith) fit.registers-lt)
        (λ r hr. bind-Safe ops laws exe (get_reg-Safe ops laws exe r hr) (λ target ht.
          if-Safe ops laws exe (bit_and target 3 == 0)
            (λ _.
              bind-Safe ops laws exe
                (modify-Safe ops laws exe _ (λ s v. with_jump s target true ht v))
                (λ _ _.
                  if-Safe ops laws exe (str_eq i.name "JALR") (λ _. link_jalr-Safe i fit h)
                    (λ _. pure-Safe ops laws exe tt tt)))
            (λ _. instruction_error-Safe ops laws exe _)))

  pub execute_jump-Safe :
      (i : Instruction)
      → Fits i
      → (str_eq i.name "J" || str_eq i.name "JAL" ≡ false → 1 ≤ length i.registers)
      → Runs ops laws exe Any (execute_jump i)
  unfolding execute_jump raise
  execute_jump-Safe i fit h = record {
    at = λ e v.
        if-SafeAt ops laws exe Any e.delay_slot _ _ (λ _. v)
          (λ _.
            if-SafeAt ops laws exe Any (str_eq i.name "J" || str_eq i.name "JAL") _ _
              (λ _. (jump_to_pointer-Safe i).at e v)
              (λ other. (jump_to_register-Safe i fit (h other)).at e v));
  }
