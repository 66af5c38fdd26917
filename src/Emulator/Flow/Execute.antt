-- ===== src/Emulator/Flow/Execute.antt =====
-- What each family of instructions leaves as it is.
use mips.Prelude.{
  ℕ, ◌≡◌, refl, Bool, true, List, [], ◌∷◌, ◌==◌, ◌||◌, length, is_one_of, str_eq, ◌-◌, bit_and,
  String,
}
use mips.Prelude.Int.{ℤ}
use mips.Isa.{Instruction, int32}
use mips.Memory.Interface.{MemoryOps}
use mips.Emulator.State.{Emulator, raise, pure, modify, instruction_error}
use mips.Emulator.Execute.Control.{
  set_jump_next, compare_registers, decide_branch, branch_from, execute_branch, last_operand,
  link_pointer, jump_to_pointer, link_register, link_jalr, take_register_jump, jump_to_register,
  execute_jump,
}
use mips.Emulator.Execute.Data.{
  set_destination, execute_register_arithmetic, execute_immediate_arithmetic,
  execute_load_upper_immediate, second_operand, execute_set_less_than, execute_constant_shift,
  execute_register_shift, move_value, execute_conditional_move, do_move,
}
use mips.Emulator.Execute.Transfer.{
  is_misaligned, execute_load_word, execute_store_word, transfer, execute_memory,
}
use mips.Emulator.Flow.Keeps.{
  Keeps, Keeps-bind, Keeps-pure, Keeps-current, Keeps-modify, Keeps-operand, Keeps-get_reg,
  Keeps-operand_value, Keeps-instruction_error, Keeps-checked, Keeps-if, if-at, Keeps-set_reg,
  Keeps-write_reg,
}

module _ {M V : Type 0} (view : Emulator M → V)
    (registers : (e : Emulator M) (rs : List ℕ)
      → view (record e { register_file = rs }) ≡ view e) where
  set_destination-Keeps : (i : Instruction) (v : ℕ) → Keeps view (set_destination i v)
  unfolding set_destination
  set_destination-Keeps i v =
      Keeps-bind view (Keeps-operand view i 0) (λ r. Keeps-set_reg view r v registers)

  pub execute_register_arithmetic-Keeps :
      (i : Instruction) → Keeps view (execute_register_arithmetic i)
  unfolding execute_register_arithmetic
  execute_register_arithmetic-Keeps i =
      Keeps-bind view (Keeps-operand_value view i 1)
        (λ a. Keeps-bind view (Keeps-operand_value view i 2) (λ b. set_destination-Keeps i _))

  pub execute_immediate_arithmetic-Keeps :
      (i : Instruction) → Keeps view (execute_immediate_arithmetic i)
  unfolding execute_immediate_arithmetic
  execute_immediate_arithmetic-Keeps i =
      Keeps-bind view (Keeps-operand_value view i 1) (λ a. set_destination-Keeps i _)

  pub execute_load_upper_immediate-Keeps :
      (i : Instruction) → Keeps view (execute_load_upper_immediate i)
  unfolding execute_load_upper_immediate
  execute_load_upper_immediate-Keeps i = set_destination-Keeps i _

  pub execute_set_less_than-Keeps : (i : Instruction) → Keeps view (execute_set_less_than i)
  unfolding execute_set_less_than second_operand
  execute_set_less_than-Keeps i = Keeps-bind view (Keeps-operand_value view i 1) (λ a.
      Keeps-bind view
        (Keeps-if view (is_one_of i.name ("SLTI" ∷ "SLTIU" ∷ [])) (Keeps-pure view _)
          (Keeps-operand_value view i 2))
        (λ b. set_destination-Keeps i _))

  pub execute_constant_shift-Keeps : (i : Instruction) → Keeps view (execute_constant_shift i)
  unfolding execute_constant_shift
  execute_constant_shift-Keeps i =
      Keeps-bind view (Keeps-operand_value view i 1) (λ a. set_destination-Keeps i _)

  pub execute_register_shift-Keeps : (i : Instruction) → Keeps view (execute_register_shift i)
  unfolding execute_register_shift
  execute_register_shift-Keeps i =
      Keeps-bind view (Keeps-operand_value view i 2)
        (λ a. Keeps-bind view (Keeps-operand_value view i 1) (λ b. set_destination-Keeps i _))

  pub execute_conditional_move-Keeps : (i : Instruction) → Keeps view (execute_conditional_move i)
  unfolding execute_conditional_move move_value
  execute_conditional_move-Keeps i = Keeps-bind view (Keeps-operand_value view i 2) (λ c.
      Keeps-if view (do_move i.name c)
        (Keeps-bind view (Keeps-operand_value view i 1) (λ v. set_destination-Keeps i v))
        (Keeps-pure view tt))

  module _ (ops : MemoryOps M)
      (memory : (e : Emulator M) (m : M) → view (record e { memory = m }) ≡ view e) where
    transfer-Keeps :
        (name : String) (address register val : ℕ)
        → Keeps view (transfer ops name address register val)
    unfolding transfer execute_load_word execute_store_word instruction_error modify pure
    transfer-Keeps name address register val = record {
      at = λ e.
          if-at view (str_eq name "LB") _ _ _ ((Keeps-set_reg view register _ registers).at e) (
            if-at view (str_eq name "LBU") _ _ _ ((Keeps-set_reg view register _ registers).at e) (
              if-at view (str_eq name "LW") _ _ _
                (if-at view (is_misaligned e address) _ _ _ refl
                  ((Keeps-set_reg view register _ registers).at e))
                (if-at view (str_eq name "SB") _ _ _ (memory e _) (
                  if-at view (str_eq name "SW") _ _ _
                    (if-at view (is_misaligned e address) _ _ _ refl (memory e _)) refl))));
    }

    pub execute_memory-Keeps : (i : Instruction) → Keeps view (execute_memory ops i)
    unfolding execute_memory
    execute_memory-Keeps i =
        Keeps-bind view (Keeps-get_reg view i.memory_reference.register) (λ base.
          Keeps-bind view (Keeps-operand view i 0) (λ register.
            Keeps-bind view (Keeps-get_reg view register)
              (λ val. transfer-Keeps i.name _ register val)))

  pub link_pointer-Keeps : (i : Instruction) → Keeps view (link_pointer i)
  unfolding link_pointer pure
  link_pointer-Keeps i = record {
    at = λ e.
        if-at view (str_eq i.name "JAL") _ _ _ ((Keeps-write_reg view 31 _ registers).at e) refl;
  }

  -- instructions that choose whether a jump is next
  module _ (next : (e : Emulator M) (b : Bool) → view (record e { jump_next = b }) ≡ view e) where
    set_jump_next-Keeps : (b : Bool) → Keeps view (set_jump_next b)
    unfolding set_jump_next
    set_jump_next-Keeps b = Keeps-modify view _ (λ e. next e b)

    pub decide_branch-Keeps : (i : Instruction) (val1 : ℤ) → Keeps view (decide_branch i val1)
    unfolding decide_branch compare_registers
    decide_branch-Keeps i val1 =
        Keeps-if view (str_eq i.name "BEQ" || str_eq i.name "BNE")
          (Keeps-bind view (Keeps-operand_value view i 1) (λ v. set_jump_next-Keeps _))
          (Keeps-if view (str_eq i.name "BGEZ") (set_jump_next-Keeps _) (
            Keeps-if view (str_eq i.name "BGTZ") (set_jump_next-Keeps _) (
              Keeps-if view (str_eq i.name "BLEZ") (set_jump_next-Keeps _) (
                Keeps-if view (str_eq i.name "BLTZ") (set_jump_next-Keeps _)
                  (Keeps-pure view tt)))))

  module _
      (jump : (e : Emulator M) (b : Bool) (t : ℕ)
        → view (record e { jump_next = b; jump_target = t }) ≡ view e) where
    branch_from-Keeps : (i : Instruction) → Keeps view (branch_from i)
    unfolding branch_from
    branch_from-Keeps i = Keeps-bind view (Keeps-current view) (λ e.
        Keeps-bind view (Keeps-checked view _) (λ offset.
          Keeps-bind view (Keeps-modify view _ (λ s. jump s s.jump_next _)) (λ _.
            Keeps-bind view (Keeps-operand_value view i 0)
              (λ v. decide_branch-Keeps (λ e b. jump e b e.jump_target) i (int32 v)))))

    pub execute_branch-Keeps : (i : Instruction) → Keeps view (execute_branch i)
    unfolding execute_branch raise
    execute_branch-Keeps i = record {
      at = λ e. if-at view e.delay_slot _ _ _ refl ((branch_from-Keeps i).at e);
    }

    jump_to_pointer-Keeps : (i : Instruction) → Keeps view (jump_to_pointer i)
    unfolding jump_to_pointer
    jump_to_pointer-Keeps i = Keeps-bind view (Keeps-current view) (λ e.
        Keeps-bind view (Keeps-checked view _) (λ offset.
          Keeps-bind view (Keeps-modify view _ (λ s. jump s true _)) (λ _. link_pointer-Keeps i)))

    link_jalr-Keeps : (i : Instruction) → Keeps view (link_jalr i)
    unfolding link_jalr link_register
    link_jalr-Keeps i = Keeps-bind view (Keeps-current view) (λ e.
        Keeps-bind view
          (Keeps-if view (length i.registers == 2) (Keeps-operand view i 0) (Keeps-pure view 31))
          (λ r. Keeps-set_reg view r _ registers))

    jump_to_register-Keeps : (i : Instruction) → Keeps view (jump_to_register i)
    unfolding jump_to_register last_operand take_register_jump
    jump_to_register-Keeps i = Keeps-bind view (Keeps-operand view i (length i.registers - 1)) (λ r.
        Keeps-bind view (Keeps-get_reg view r) (λ target.
          Keeps-if view (bit_and target 3 == 0)
            (Keeps-bind view (Keeps-modify view _ (λ s. jump s true target))
              (λ _. Keeps-if view (str_eq i.name "JALR") (link_jalr-Keeps i) (Keeps-pure view tt)))
            (Keeps-instruction_error view _)))

    pub execute_jump-Keeps : (i : Instruction) → Keeps view (execute_jump i)
    unfolding execute_jump raise
    execute_jump-Keeps i = record {
      at = λ e. if-at view e.delay_slot _ _ _ refl (
          if-at view (str_eq i.name "J" || str_eq i.name "JAL") _ _ _
            ((jump_to_pointer-Keeps i).at e) ((jump_to_register-Keeps i).at e));
    }
