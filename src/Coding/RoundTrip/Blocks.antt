-- ===== src/Coding/RoundTrip/Blocks.antt =====
-- The blocks that are told by the opcode alone: `decode_instruction` gives an instruction that encodes to the word it came from.
use mips.Prelude.{ℕ, ◌≡◌, ap, ◌∙◌, sym, arith, String, some, lookup, subst}
use mips.Isa.{Instruction, ok}
use mips.Coding.Tables.{two_operand_immediate_opcodes, memory_opcodes}
use mips.Coding.Target.{SymbolTable}
use mathlib.Core.Option.{some-injective}
use mips.Coding.Decode.{
  lui_instruction, Fields, decode_immediate, immediate_instruction, decode_lui, decode_memory,
  memory_instruction,
}
use mips.Coding.Encode.{encode, immediate_word, lui_word, memory_word}
use mips.Coding.RoundTrip.Layout.{FieldsOf, immediate_layout, immediate_layout_twice, lui_layout}
use mips.Coding.RoundTrip.Dispatch.{immediate-Dispatches, memory-Dispatches}
use mips.Coding.RoundTrip.Base.{when_numbered-eq-some, GivesBack, same_half}

module _ (inst_addr : ℕ) (symbols : SymbolTable) (w : ℕ) (f : Fields) (of : FieldsOf w f) where
  immediate_named :
      (name : String)
      → lookup f.opcode two_operand_immediate_opcodes ≡ some name
      → GivesBack inst_addr symbols w (immediate_instruction f name)
  unfolding immediate_instruction immediate_word
  immediate_named name found =
      immediate-Dispatches inst_addr symbols f.opcode found (immediate_instruction f name)
      ∙ ap ok (
          rw (same_half of, same_half of)
            (immediate_layout_twice f.opcode f.register_s f.register_t f.immediate of.opcode-lt
                of.register_s-lt of.register_t-lt of.immediate-lt
              ∙ sym of.whole))

  pub immediate-GivesBack :
      (i : Instruction) → decode_immediate f ≡ some i → GivesBack inst_addr symbols w i
  unfolding decode_immediate
  immediate-GivesBack i h =
      let (name, found, made) =
        when_numbered-eq-some two_operand_immediate_opcodes f.opcode
          (λ n. some (immediate_instruction f n)) h in
      subst (GivesBack inst_addr symbols w) (some-injective _ _ made) (immediate_named name found)

  memory_named :
      (name : String)
      → lookup f.opcode memory_opcodes ≡ some name
      → GivesBack inst_addr symbols w (memory_instruction f name)
  unfolding memory_instruction memory_word
  memory_named name found =
      memory-Dispatches inst_addr symbols f.opcode found (memory_instruction f name)
      ∙ ap ok (
          rw (same_half of, same_half of)
            (immediate_layout f.opcode f.register_s f.register_t f.immediate of.opcode-lt
                of.register_s-lt of.register_t-lt of.immediate-lt
              ∙ sym of.whole))

  pub memory-GivesBack :
      (i : Instruction) → decode_memory f ≡ some i → GivesBack inst_addr symbols w i
  unfolding decode_memory
  memory-GivesBack i h =
      let (name, found, made) =
        when_numbered-eq-some memory_opcodes f.opcode (λ n. some (memory_instruction f n)) h in
      subst (GivesBack inst_addr symbols w) (some-injective _ _ made) (memory_named name found)

  pub lui-GivesBack : (i : Instruction) → decode_lui f ≡ some i → GivesBack inst_addr symbols w i
  unfolding decode_lui encode lui_word
  lui-GivesBack i h = subst (GivesBack inst_addr symbols w) taken.2 (
      ap ok (
        rw (same_half of) (
          lui_layout 15 f.register_t f.immediate (omega arith) of.register_t-lt of.immediate-lt
          ∙ omega (arith, taken.0, taken.1))))
    where
      taken : (f.opcode ≡ 15) × (f.register_s ≡ 0) × (lui_instruction f ≡ i)
      taken = ground arith
