-- ===== src/Coding/RoundTrip/Control.antt =====
-- The blocks of branches and jumps, whose targets `encode` looks at.
use mips.Prelude.{
  when, All, All-lookup, ◌⊎◌, bit_or, [], ◌∷◌, List, ℕ, ◌*◌, ◌%◌, ◌^◌, ◌<◌, ◌≡◌, refl, ap, ◌∙◌, sym,
  inl, inr, arith, String, some, lookup, ◌==◌, bit_and, subst,
}
use mips.Isa.{u32, add32, Instruction, ok, sext16, ◌<<◌, ◌>>>◌}
use mips.Bits.Fields.{bit_and_mask, bit_and_high}
use mips.Coding.Tables.{branch_opcodes, j_type_opcodes}
use mips.Coding.Target.{SymbolTable, instruction_branch_offset, instruction_jump_base}
use mathlib.Core.Option.{some-injective}
use mips.Coding.Decode.{
  Fields, decode_branch, branch_named, branch_instruction, decode_jump, jump_instruction,
}
use mips.Coding.Encode.{encode, branch_word, jump_word}
use mips.Coding.RoundTrip.Layout.{FieldsOf, immediate_layout, jump_layout}
use mips.Coding.RoundTrip.Dispatch.{jump-Dispatches}
use mips.Coding.RoundTrip.Base.{when_numbered-eq-some, when-eq-some, GivesBack}

-- The constant of a decoded branch is a multiple of 4 with the immediate above it.
quarter : (c : ℕ) → c < 2 ^ 16 → bit_and ((sext16 c << 2) >>> 2) 0xffff ≡ c
quarter c h = bit_and_mask 16 ((sext16 c << 2) >>> 2) ∙ ground arith

aligned : (c : ℕ) → c < 2 ^ 16 → bit_and (sext16 c << 2) 3 ≡ 0
aligned c h = bit_and_mask 2 (sext16 c << 2) ∙ omega arith

module _ (inst_addr : ℕ) (symbols : SymbolTable) (w : ℕ) (f : Fields) (of : FieldsOf w f) where
  offset_lem :
      (name : String) (registers : List ℕ)
      → instruction_branch_offset (branch_instruction f name registers) inst_addr symbols
        ≡ ok (sext16 f.immediate << 2)
  unfolding instruction_branch_offset branch_instruction
  offset_lem name registers = rw (aligned f.immediate of.immediate-lt)

  two_register_sum :
      (opcode : ℕ)
      → f.opcode ≡ opcode
      → bit_or
          (bit_or (bit_or (opcode << 26) (u32 f.register_s << 21)) (u32 f.register_t << 16))
          (bit_and ((sext16 f.immediate << 2) >>> 2) 0xffff)
        ≡ w
  two_register_sum opcode e = rw (quarter f.immediate of.immediate-lt) (
      immediate_layout opcode f.register_s f.register_t f.immediate (omega arith) of.register_s-lt
        of.register_t-lt of.immediate-lt
      ∙ omega (arith, of.whole))

  two_registers : String → Instruction
  two_registers name = branch_instruction f name (f.register_s ∷ f.register_t ∷ [])

  one_register : String → Instruction
  one_register name = branch_instruction f name (f.register_s ∷ [])

  beq-GivesBack : f.opcode ≡ 4 → GivesBack inst_addr symbols w (two_registers "BEQ")
  unfolding encode branch_word branch_instruction two_registers
  beq-GivesBack e =
      rw (offset_lem "BEQ" (f.register_s ∷ f.register_t ∷ [])) (ap ok (two_register_sum 4 e))

  bne-GivesBack : f.opcode ≡ 5 → GivesBack inst_addr symbols w (two_registers "BNE")
  unfolding encode branch_word branch_instruction two_registers
  bne-GivesBack e =
      rw (offset_lem "BNE" (f.register_s ∷ f.register_t ∷ [])) (ap ok (two_register_sum 5 e))

  bgtz-GivesBack :
      f.opcode ≡ 7 → f.register_t ≡ 0 → GivesBack inst_addr symbols w (one_register "BGTZ")
  unfolding encode branch_word branch_instruction one_register
  bgtz-GivesBack e t =
      rw (offset_lem "BGTZ" (f.register_s ∷ [])) (ap ok (rw t at two_register_sum 7 e))

  blez-GivesBack :
      f.opcode ≡ 6 → f.register_t ≡ 0 → GivesBack inst_addr symbols w (one_register "BLEZ")
  unfolding encode branch_word branch_instruction one_register
  blez-GivesBack e t =
      rw (offset_lem "BLEZ" (f.register_s ∷ [])) (ap ok (rw t at two_register_sum 6 e))

  bltz-GivesBack :
      f.opcode ≡ 1 → f.register_t ≡ 0 → GivesBack inst_addr symbols w (one_register "BLTZ")
  unfolding encode branch_word branch_instruction one_register
  bltz-GivesBack e t =
      rw (offset_lem "BLTZ" (f.register_s ∷ [])) (ap ok (rw t at two_register_sum 1 e))

  bgez-GivesBack :
      f.opcode ≡ 1 → f.register_t ≡ 1 → GivesBack inst_addr symbols w (one_register "BGEZ")
  unfolding encode branch_word branch_instruction one_register
  bgez-GivesBack e t =
      rw (offset_lem "BGEZ" (f.register_s ∷ [])) (ap ok (rw t at two_register_sum 1 e))

  abbrev Named : ℕ × String → Type 0
  Named (number, name) =
      f.opcode ≡ number
      → (i : Instruction) → branch_named f name ≡ some i
      → GivesBack inst_addr symbols w i

  two_registers-Named :
      (number : ℕ) (name : String)
      → (branch_named f name ≡ some (two_registers name))
      → (f.opcode ≡ number → GivesBack inst_addr symbols w (two_registers name))
      → Named (number, name)
  two_registers-Named number name made back e i h =
      subst (GivesBack inst_addr symbols w) (some-injective _ _ (sym made ∙ h)) (back e)

  one_register-Named :
      (number : ℕ) (name : String)
      → branch_named f name ≡ when (f.register_t == 0) (one_register name)
      → (f.opcode ≡ number → f.register_t ≡ 0 → GivesBack inst_addr symbols w (one_register name))
      → Named (number, name)
  one_register-Named number name made back e i h =
      let (zero_t, same) = when-eq-some f.register_t (one_register name) (sym made ∙ h) in
      subst (GivesBack inst_addr symbols w) same (back e zero_t)

  bltz-Named : Named (1, "BLTZ")
  unfolding branch_named one_register
  bltz-Named e i h = elim taken [
    | inl (t, same) ↦ subst (GivesBack inst_addr symbols w) same (bgez-GivesBack e t)
    | inr (t, same) ↦ subst (GivesBack inst_addr symbols w) same (bltz-GivesBack e t)
  ]
    where
      taken :
          ((f.register_t ≡ 1) × (one_register "BGEZ" ≡ i))
          ⊎ ((f.register_t ≡ 0) × (one_register "BLTZ" ≡ i))
      taken = ground arith

  All-Named : All Named branch_opcodes
  unfolding branch_named one_register two_registers branch_opcodes
  All-Named = (
    two_registers-Named 4 "BEQ" refl beq-GivesBack,
    (
      bltz-Named,
      (
        one_register-Named 7 "BGTZ" refl bgtz-GivesBack,
        (
          one_register-Named 6 "BLEZ" refl blez-GivesBack,
          (two_registers-Named 5 "BNE" refl bne-GivesBack, tt),
        ),
      ),
    ),
  )

  pub branch-GivesBack :
      (i : Instruction) → decode_branch f ≡ some i → GivesBack inst_addr symbols w i
  unfolding decode_branch
  branch-GivesBack i h =
      let (name, found, made) = when_numbered-eq-some branch_opcodes f.opcode (branch_named f) h in
      All-lookup Named branch_opcodes f.opcode All-Named found refl i made

-- A decoded jump has a target in the lowest region, and so must the jump itself.
module _ (inst_addr : ℕ) (symbols : SymbolTable) (near : add32 inst_addr 4 < 2 ^ 28) where
  jump_base_lem :
      (name : String) (word : ℕ)
      → instruction_jump_base (jump_instruction word name) inst_addr symbols
        ≡ ok (word % 2 ^ 26 * 4)
  unfolding instruction_jump_base jump_instruction
  jump_base_lem name word = ground (
    arith,
    bit_and_mask 26 word,
    bit_and_mask 2 (word % 2 ^ 26 * 4),
    bit_and_mask 28 (word % 2 ^ 26 * 4),
    bit_and_high 4 28 (word % 2 ^ 26 * 4),
    bit_and_high 4 28 (add32 inst_addr 4),
  )

  jump_named :
      (w : ℕ) (f : Fields) (of : FieldsOf w f) (name : String)
      → lookup f.opcode j_type_opcodes ≡ some name
      → GivesBack inst_addr symbols w (jump_instruction w name)
  unfolding jump_word jump_instruction
  jump_named w f of name found =
      jump-Dispatches inst_addr symbols f.opcode found (jump_instruction w name)
      ∙ rw (jump_base_lem name w) (
          ap ok (
            ap (λ (t : ℕ). bit_or (f.opcode << 26) t) target
            ∙ jump_layout f.opcode (w % 2 ^ 26) of.opcode-lt (omega arith)
            ∙ omega (arith, of.whole)))
    where
      target : (w % 2 ^ 26 * 4) >>> 2 ≡ w % 2 ^ 26
      target = omega arith

  pub jump-GivesBack :
      (w : ℕ) (f : Fields) (of : FieldsOf w f) (i : Instruction)
      → decode_jump w f ≡ some i
      → GivesBack inst_addr symbols w i
  unfolding decode_jump
  jump-GivesBack w f of i h =
      let (name, found, made) =
        when_numbered-eq-some j_type_opcodes f.opcode (λ n. some (jump_instruction w n)) h in
      subst (GivesBack inst_addr symbols w) (some-injective _ _ made) (jump_named w f of name found)
