-- ===== src/Coding/RoundTrip/Registers.antt =====
-- The blocks under opcode 0, which are told by the function field.
use mips.Prelude.{when, [], ◌∷◌, ℕ, ◌≡◌, ap, ◌∙◌, arith, String, some, lookup, ◌==◌, subst}
use mips.Isa.{instruction, Instruction, ok}
use mips.Coding.Tables.{constant_shift_funcs, variable_shift_funcs, three_reg_operand_funcs}
use mips.Coding.Target.{SymbolTable}
use mips.Coding.Decode.{
  constant_shift_instruction, variable_shift_instruction, three_registers_instruction, Fields,
  decode_constant_shift, decode_variable_shift, decode_three_registers, decode_jr, decode_jalr,
}
use mips.Coding.Encode.{
  encode, constant_shift_word, variable_shift_word, three_registers_word, jr_word, jalr_word,
}
use mips.Coding.RoundTrip.Layout.{FieldsOf, shift_layout, register_layout, jr_layout, jalr_layout}
use mips.Coding.RoundTrip.Dispatch.{
  constant_shift-Dispatches, variable_shift-Dispatches, three_registers-Dispatches,
}
use mips.Coding.RoundTrip.Base.{when_numbered-eq-some, when-eq-some, GivesBack}

module _ (inst_addr : ℕ) (symbols : SymbolTable) (w : ℕ) (f : Fields) (of : FieldsOf w f) where
  constant_shift_named :
      (name : String)
      → f.opcode ≡ 0
      → f.register_s ≡ 0
      → lookup f.func_field constant_shift_funcs ≡ some name
      → GivesBack inst_addr symbols w (constant_shift_instruction f name)
  unfolding constant_shift_instruction constant_shift_word
  constant_shift_named name zero_op zero_s found =
      constant_shift-Dispatches inst_addr symbols f.func_field found
        (constant_shift_instruction f name)
      ∙ ap ok (
          shift_layout f.register_t f.register_d f.shift_amount f.func_field of.register_t-lt
            of.register_d-lt of.shift_amount-lt of.func_field-lt
          ∙ omega (arith, of.whole, of.low_half))

  pub constant_shift-GivesBack :
      (i : Instruction)
      → f.opcode ≡ 0
      → decode_constant_shift f ≡ some i
      → GivesBack inst_addr symbols w i
  unfolding decode_constant_shift
  constant_shift-GivesBack i zero_op h =
      let (name, found, made) =
        when_numbered-eq-some constant_shift_funcs f.func_field
          (λ n. when (f.register_s == 0) (constant_shift_instruction f n)) h in
      let (zero_s, same) = when-eq-some (f.register_s) _ made in
      subst (GivesBack inst_addr symbols w) same (constant_shift_named name zero_op zero_s found)

  variable_shift_named :
      (name : String)
      → f.opcode ≡ 0
      → f.shift_amount ≡ 0
      → lookup f.func_field variable_shift_funcs ≡ some name
      → GivesBack inst_addr symbols w (variable_shift_instruction f name)
  unfolding variable_shift_instruction variable_shift_word
  variable_shift_named name zero_op zero_amount found =
      variable_shift-Dispatches inst_addr symbols f.func_field found
        (variable_shift_instruction f name)
      ∙ ap ok (
          register_layout f.register_s f.register_t f.register_d f.func_field of.register_s-lt
            of.register_t-lt of.register_d-lt of.func_field-lt
          ∙ omega (arith, of.whole, of.low_half))

  pub variable_shift-GivesBack :
      (i : Instruction)
      → f.opcode ≡ 0
      → decode_variable_shift f ≡ some i
      → GivesBack inst_addr symbols w i
  unfolding decode_variable_shift
  variable_shift-GivesBack i zero_op h =
      let (name, found, made) =
        when_numbered-eq-some variable_shift_funcs f.func_field
          (λ n. when (f.shift_amount == 0) (variable_shift_instruction f n)) h in
      let (zero_amount, same) = when-eq-some f.shift_amount _ made in
      subst (GivesBack inst_addr symbols w) same
        (variable_shift_named name zero_op zero_amount found)

  three_registers_named :
      (name : String)
      → f.opcode ≡ 0
      → f.shift_amount ≡ 0
      → lookup f.func_field three_reg_operand_funcs ≡ some name
      → GivesBack inst_addr symbols w (three_registers_instruction f name)
  unfolding three_registers_instruction three_registers_word
  three_registers_named name zero_op zero_amount found =
      three_registers-Dispatches inst_addr symbols f.func_field found
        (three_registers_instruction f name)
      ∙ ap ok (
          register_layout f.register_s f.register_t f.register_d f.func_field of.register_s-lt
            of.register_t-lt of.register_d-lt of.func_field-lt
          ∙ omega (arith, of.whole, of.low_half))

  pub three_registers-GivesBack :
      (i : Instruction)
      → f.opcode ≡ 0
      → decode_three_registers f ≡ some i
      → GivesBack inst_addr symbols w i
  unfolding decode_three_registers
  three_registers-GivesBack i zero_op h =
      let (name, found, made) =
        when_numbered-eq-some three_reg_operand_funcs f.func_field
          (λ n. when (f.shift_amount == 0) (three_registers_instruction f n)) h in
      let (zero_amount, same) = when-eq-some f.shift_amount _ made in
      subst (GivesBack inst_addr symbols w) same
        (three_registers_named name zero_op zero_amount found)

  pub jr-GivesBack :
      (i : Instruction) → f.opcode ≡ 0 → decode_jr f ≡ some i → GivesBack inst_addr symbols w i
  unfolding decode_jr encode jr_word
  jr-GivesBack i zero_op h = subst (GivesBack inst_addr symbols w) taken.4 (
      ap ok (
        jr_layout f.register_s 8 of.register_s-lt (omega arith)
        ∙ omega (arith, of.whole, of.low_half, taken.0, taken.1, taken.2, taken.3)))
    where
      taken :
          (f.register_t ≡ 0)
          × (f.register_d ≡ 0)
          × (f.shift_amount ≡ 0)
          × (f.func_field ≡ 8)
          × (instruction "JR" (f.register_s ∷ []) ≡ i)
      taken = ground arith

  pub jalr-GivesBack :
      (i : Instruction) → f.opcode ≡ 0 → decode_jalr f ≡ some i → GivesBack inst_addr symbols w i
  unfolding decode_jalr encode jalr_word
  jalr-GivesBack i zero_op h = subst (GivesBack inst_addr symbols w) taken.3 (
      ap ok (
        jalr_layout f.register_s f.register_d 9 of.register_s-lt of.register_d-lt (omega arith)
        ∙ omega (arith, of.whole, of.low_half, taken.0, taken.1, taken.2)))
    where
      taken :
          (f.register_t ≡ 0)
          × (f.shift_amount ≡ 0)
          × (f.func_field ≡ 9)
          × (instruction "JALR" (f.register_d ∷ f.register_s ∷ []) ≡ i)
      taken = ground arith
