-- ===== src/Coding/RoundTrip/Whole.antt =====
-- The blocks put together: `Encode` after `DecodeInstruction`.
use mips.Prelude.{ℕ, ◌^◌, ◌<◌, ◌≡◌, refl, sym, ap, inl, inr, arith, some, Bool-cases, ◌==◌, ==_iff}
use mips.Isa.{Instruction, ok, add32}
use mips.Coding.Target.{SymbolTable}
use mips.Coding.Decode.{
  Fields, fields, decode_instruction, decode_fields, decode_immediate, decode_lui, decode_branch,
  decode_jump, decode_memory, decode_register, decode_constant_shift, decode_variable_shift,
  decode_three_registers, decode_jr, decode_jalr, word_directive,
}
use mips.Coding.Encode.{encode, nop_word}
use mips.Coding.RoundTrip.Base.{GivesBack, or_else-all, or_try-all}
use mips.Coding.RoundTrip.Layout.{FieldsOf, fields-FieldsOf}
use mips.Coding.RoundTrip.Blocks.{immediate-GivesBack, memory-GivesBack, lui-GivesBack}
use mips.Coding.RoundTrip.Registers.{
  constant_shift-GivesBack, variable_shift-GivesBack, three_registers-GivesBack, jr-GivesBack,
  jalr-GivesBack,
}
use mips.Coding.RoundTrip.Control.{branch-GivesBack, jump-GivesBack}

module _ (inst_addr : ℕ) (symbols : SymbolTable) (near : add32 inst_addr 4 < 2 ^ 28) where
  register-GivesBack :
      (w : ℕ) (f : Fields) (of : FieldsOf w f) (i : Instruction)
      → decode_register f ≡ some i
      → GivesBack inst_addr symbols w i
  unfolding decode_register
  register-GivesBack w f of i h = elim (Bool-cases (f.opcode == 0)) [
    | inl zero ↦
        let zero_op = (==_iff f.opcode 0).0 zero in
        let G = GivesBack inst_addr symbols w in
        or_try-all G (decode_constant_shift f) _
          (λ j. constant_shift-GivesBack inst_addr symbols w f of j zero_op)
          (or_try-all G (decode_variable_shift f) _
            (λ j. variable_shift-GivesBack inst_addr symbols w f of j zero_op)
            (or_try-all G (decode_three_registers f) _
              (λ j. three_registers-GivesBack inst_addr symbols w f of j zero_op)
              (or_try-all G (decode_jr f) (decode_jalr f)
                (λ j. jr-GivesBack inst_addr symbols w f of j zero_op)
                (λ j. jalr-GivesBack inst_addr symbols w f of j zero_op))))
          i (rw zero at h)
    | inr other ↦ absurd (ground arith)
  ]

  directive-GivesBack : (w : ℕ) → GivesBack inst_addr symbols w (word_directive w)
  unfolding encode word_directive
  directive-GivesBack w = refl

  fields-GivesBack :
      (w : ℕ) (f : Fields) → FieldsOf w f → GivesBack inst_addr symbols w (decode_fields w f)
  unfolding decode_fields
  fields-GivesBack w f of =
      let G = GivesBack inst_addr symbols w in
      or_else-all G (decode_immediate f) _ (immediate-GivesBack inst_addr symbols w f of) (
        or_else-all G (decode_lui f) _ (lui-GivesBack inst_addr symbols w f of) (
          or_else-all G (decode_branch f) _ (branch-GivesBack inst_addr symbols w f of) (
            or_else-all G (decode_jump w f) _ (jump-GivesBack inst_addr symbols near w f of) (
              or_else-all G (decode_memory f) _ (memory-GivesBack inst_addr symbols w f of) (
                or_else-all G (decode_register f) _ (register-GivesBack w f of)
                  (directive-GivesBack w))))))

-- Every 32-bit word is given back by `Encode` from what `DecodeInstruction` makes of it, whatever
-- the symbols, when the address after the instruction lies in the lowest 2 ^ 28 bytes.
pub encode-decode_instruction :
    (w inst_addr : ℕ) (symbols : SymbolTable)
    → w < 2 ^ 32
    → add32 inst_addr 4 < 2 ^ 28
    → encode (decode_instruction w) inst_addr symbols ≡ ok w
unfolding decode_instruction
encode-decode_instruction w inst_addr symbols h near = elim (Bool-cases (w == 0)) [
  | inl zero ↦ rw zero (unfold encode nop_word in ap ok (sym ((==_iff w 0).0 zero)))
  | inr other ↦
      rw other (fields-GivesBack inst_addr symbols near w (fields w) (fields-FieldsOf w h))
]
