-- ===== src/Coding/Families.antt =====
-- To show something of every decoded instruction, it is enough to show it of each family.
use mathlib.Core.Option.{some-injective}
use mips.Prelude.{
  ℕ, ◌≡◌, String, List, [], ◌∷◌, some, arith, All, All-lookup, when, subst, ◌==◌, Bool-cases, inl,
  inr,
}
use mips.Isa.{Instruction, instruction}
use mips.Coding.Tables.{
  two_operand_immediate_opcodes, branch_opcodes, j_type_opcodes, memory_opcodes,
  constant_shift_funcs, variable_shift_funcs, three_reg_operand_funcs,
}
use mips.Coding.Decode.{
  Fields, immediate_instruction, decode_immediate, lui_instruction, decode_lui, branch_instruction,
  branch_named, decode_branch, jump_instruction, decode_jump, memory_instruction, decode_memory,
  constant_shift_instruction, decode_constant_shift, variable_shift_instruction,
  decode_variable_shift, three_registers_instruction, decode_three_registers, decode_jr,
  decode_jalr, decode_register, word_directive, decode_fields,
}
use mips.Coding.RoundTrip.Base.{when_numbered-eq-some, when-eq-some, or_else-all, or_try-all}

-- the names of branches with two registers and with one
abbrev pub two_register_branches : List String
two_register_branches = "BEQ" ∷ "BNE" ∷ []

abbrev pub one_register_branches : List String
one_register_branches = "BGEZ" ∷ "BLTZ" ∷ "BGTZ" ∷ "BLEZ" ∷ []

-- `P` of every instruction that `DecodeInstruction` makes from the fields `f` of the word `w`
pub record Families (P : Instruction → Type 0) (w : ℕ) (f : Fields) : Type 0 where
  pub immediate : All (λ e. P (immediate_instruction f e.1)) two_operand_immediate_opcodes
  pub upper : P (lui_instruction f)
  pub two_branches :
      All (λ n. P (branch_instruction f n (f.register_s ∷ f.register_t ∷ []))) two_register_branches
  pub one_branches : All (λ n. P (branch_instruction f n (f.register_s ∷ []))) one_register_branches
  pub jump : All (λ e. P (jump_instruction w e.1)) j_type_opcodes
  pub memory : All (λ e. P (memory_instruction f e.1)) memory_opcodes
  pub constant_shift : All (λ e. P (constant_shift_instruction f e.1)) constant_shift_funcs
  pub variable_shift : All (λ e. P (variable_shift_instruction f e.1)) variable_shift_funcs
  pub three_registers : All (λ e. P (three_registers_instruction f e.1)) three_reg_operand_funcs
  pub jr : P (instruction "JR" (f.register_s ∷ []))
  pub jalr : P (instruction "JALR" (f.register_d ∷ f.register_s ∷ []))
  pub directive : P (word_directive w)

module _ (P : Instruction → Type 0) (w : ℕ) (f : Fields) (all : Families P w f) where
  immediate-P : (i : Instruction) → decode_immediate f ≡ some i → P i
  unfolding decode_immediate
  immediate-P i h =
      let (name, found, made) =
        when_numbered-eq-some two_operand_immediate_opcodes f.opcode
          (λ n. some (immediate_instruction f n)) h in
      subst P (some-injective _ _ made) (
        All-lookup (λ e. P (immediate_instruction f e.1)) two_operand_immediate_opcodes f.opcode
          all.immediate found)

  lui-P : (i : Instruction) → decode_lui f ≡ some i → P i
  unfolding decode_lui
  lui-P i h = subst P same all.upper
    where
      same : lui_instruction f ≡ i
      same = ground arith

  jump-P : (i : Instruction) → decode_jump w f ≡ some i → P i
  unfolding decode_jump
  jump-P i h =
      let (name, found, made) =
        when_numbered-eq-some j_type_opcodes f.opcode (λ n. some (jump_instruction w n)) h in
      subst P (some-injective _ _ made)
        (All-lookup (λ e. P (jump_instruction w e.1)) j_type_opcodes f.opcode all.jump found)

  memory-P : (i : Instruction) → decode_memory f ≡ some i → P i
  unfolding decode_memory
  memory-P i h =
      let (name, found, made) =
        when_numbered-eq-some memory_opcodes f.opcode (λ n. some (memory_instruction f n)) h in
      subst P (some-injective _ _ made)
        (All-lookup (λ e. P (memory_instruction f e.1)) memory_opcodes f.opcode all.memory found)

  constant_shift-P : (i : Instruction) → decode_constant_shift f ≡ some i → P i
  unfolding decode_constant_shift
  constant_shift-P i h =
      let (name, found, made) =
        when_numbered-eq-some constant_shift_funcs f.func_field
          (λ n. when (f.register_s == 0) (constant_shift_instruction f n)) h in
      subst P ((when-eq-some f.register_s _ made).1) (
        All-lookup (λ e. P (constant_shift_instruction f e.1)) constant_shift_funcs f.func_field
          all.constant_shift found)

  variable_shift-P : (i : Instruction) → decode_variable_shift f ≡ some i → P i
  unfolding decode_variable_shift
  variable_shift-P i h =
      let (name, found, made) =
        when_numbered-eq-some variable_shift_funcs f.func_field
          (λ n. when (f.shift_amount == 0) (variable_shift_instruction f n)) h in
      subst P ((when-eq-some f.shift_amount _ made).1) (
        All-lookup (λ e. P (variable_shift_instruction f e.1)) variable_shift_funcs f.func_field
          all.variable_shift found)

  three_registers-P : (i : Instruction) → decode_three_registers f ≡ some i → P i
  unfolding decode_three_registers
  three_registers-P i h =
      let (name, found, made) =
        when_numbered-eq-some three_reg_operand_funcs f.func_field
          (λ n. when (f.shift_amount == 0) (three_registers_instruction f n)) h in
      subst P ((when-eq-some f.shift_amount _ made).1) (
        All-lookup (λ e. P (three_registers_instruction f e.1)) three_reg_operand_funcs f.func_field
          all.three_registers found)

  jr-P : (i : Instruction) → decode_jr f ≡ some i → P i
  unfolding decode_jr
  jr-P i h = subst P same all.jr
    where
      same : instruction "JR" (f.register_s ∷ []) ≡ i
      same = ground arith

  jalr-P : (i : Instruction) → decode_jalr f ≡ some i → P i
  unfolding decode_jalr
  jalr-P i h = subst P same all.jalr
    where
      same : instruction "JALR" (f.register_d ∷ f.register_s ∷ []) ≡ i
      same = ground arith

  abbrev NamedP : ℕ × String → Type 0
  NamedP (number, name) = (i : Instruction) → branch_named f name ≡ some i → P i

  one-P :
      (name : String)
      → P (branch_instruction f name (f.register_s ∷ []))
      → (t : ℕ) (i : Instruction)
      → when (t == 0) (branch_instruction f name (f.register_s ∷ [])) ≡ some i
      → P i
  one-P name p t i e = subst P (when-eq-some t _ e).1 p

  bltz-P : NamedP (1, "BLTZ")
  unfolding branch_named
  bltz-P i h = elim (Bool-cases (f.register_t == 1)) [
    | inl one ↦ one-P "BGEZ" all.one_branches.0 0 i (rw one at h)
    | inr other ↦ one-P "BLTZ" all.one_branches.1.0 f.register_t i (rw other at h)
  ]

  named-P : All NamedP branch_opcodes
  unfolding branch_named branch_opcodes
  named-P = (
    λ i e. subst P (some-injective _ _ e) all.two_branches.0,
    (
      bltz-P,
      (
        one-P "BGTZ" all.one_branches.1.1.0 f.register_t,
        (
          one-P "BLEZ" all.one_branches.1.1.1.0 f.register_t,
          (λ i e. subst P (some-injective _ _ e) all.two_branches.1.0, tt),
        ),
      ),
    ),
  )

  branch-P : (i : Instruction) → decode_branch f ≡ some i → P i
  unfolding decode_branch
  branch-P i h =
      let (name, found, made) = when_numbered-eq-some branch_opcodes f.opcode (branch_named f) h in
      All-lookup NamedP branch_opcodes f.opcode named-P found i made

  register-P : (i : Instruction) → decode_register f ≡ some i → P i
  unfolding decode_register
  register-P i h = elim (Bool-cases (f.opcode == 0)) [
    | inl zero ↦
        or_try-all P (decode_constant_shift f) _ constant_shift-P
          (or_try-all P (decode_variable_shift f) _ variable_shift-P (
            or_try-all P (decode_three_registers f) _ three_registers-P
              (or_try-all P (decode_jr f) (decode_jalr f) jr-P jalr-P)))
          i (rw zero at h)
    | inr other ↦ absurd (ground arith)
  ]

  pub decode_fields-all : P (decode_fields w f)
  unfolding decode_fields
  decode_fields-all = or_else-all P (decode_immediate f) _ immediate-P (
      or_else-all P (decode_lui f) _ lui-P (
        or_else-all P (decode_branch f) _ branch-P (
          or_else-all P (decode_jump w f) _ jump-P (
            or_else-all P (decode_memory f) _ memory-P
              (or_else-all P (decode_register f) _ register-P all.directive)))))
