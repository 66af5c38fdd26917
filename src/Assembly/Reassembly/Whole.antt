-- ===== src/Assembly/Reassembly/Whole.antt =====
-- Disassembling and assembling again.
use mips.Prelude.{ℕ, ◌^◌, ◌<◌, ◌≡◌, ◌∙◌, refl, some, ◌==◌, Bool-cases, inl, inr}
use mips.Isa.{Instruction, ok, add32}
use mips.Coding.Target.{SymbolTable}
use mips.Coding.Decode.{Fields, fields, word_directive, decode_instruction}
use mips.Coding.Encode.{encode}
use mips.Coding.Families.{Families, decode_fields-all}
use mips.Coding.RoundTrip.Layout.{FieldsOf, fields-FieldsOf}
use mips.Coding.RoundTrip.Whole.{encode-decode_instruction}
use mips.Assembly.Token.{TokenizedLine}
use mips.Assembly.Render.{render}
use mips.Assembly.Lines.{line_instruction}
use mips.Assembly.Reassembly.Reads.{Reads}
use mips.Assembly.Reassembly.Constants.{
  two_branches-Reads, one_branches-Reads, immediate-Reads, upper-Reads,
}
use mips.Assembly.Reassembly.Registers.{
  memory-Reads, constant_shift-Reads, variable_shift-Reads, three_registers-Reads, jr-Reads,
  jalr-Reads, jump-Reads, nop-Reads,
}

directive-Reads : (w : ℕ) → w < 2 ^ 32 → Reads (word_directive w)
unfolding word_directive render line_instruction
directive-Reads w h = record {
  line = _;
  back = decode_instruction w;
  rendered = refl;
  read = refl;
  same = λ a s near. encode-decode_instruction w a s h near ∙ unfold encode in refl;
}

fields-Families : (w : ℕ) (f : Fields) → w < 2 ^ 32 → FieldsOf w f → Families Reads w f
fields-Families w f h of = record {
  immediate = immediate-Reads f of.immediate-lt;
  upper = upper-Reads f of.immediate-lt;
  two_branches = two_branches-Reads f of.immediate-lt;
  one_branches = one_branches-Reads f of.immediate-lt;
  jump = jump-Reads w;
  memory = memory-Reads f;
  constant_shift = constant_shift-Reads f of.shift_amount-lt;
  variable_shift = variable_shift-Reads f;
  three_registers = three_registers-Reads f;
  jr = jr-Reads f;
  jalr = jalr-Reads f;
  directive = directive-Reads w h;
}

pub decode_instruction-Reads : (w : ℕ) → w < 2 ^ 32 → Reads (decode_instruction w)
unfolding decode_instruction
decode_instruction-Reads w h = elim (Bool-cases (w == 0)) [
  | inl zero ↦ rw zero nop-Reads
  | inr other ↦
      rw other (
        decode_fields-all Reads w (fields w) (fields-Families w (fields w) h (fields-FieldsOf w h)))
]

-- Disassembling a 32-bit word and assembling the line again gives the word back: `Render` gives a
-- line for what the word decodes to, the line is read as an instruction, and that instruction is
-- encoded as the word, whatever the symbols, when the address after the instruction lies in the
-- lowest 2 ^ 28 bytes.
pub reassemble :
    (w inst_addr : ℕ) (symbols : SymbolTable)
    → w < 2 ^ 32
    → add32 inst_addr 4 < 2 ^ 28
    → (line : TokenizedLine) × (back : Instruction) × (render (decode_instruction w) ≡ ok line)
      × (line_instruction line ≡ some (ok back))
      × (encode back inst_addr symbols ≡ ok w)
reassemble w inst_addr symbols h near =
    let reads = decode_instruction-Reads w h in
    (
      reads.line,
      reads.back,
      reads.rendered,
      reads.read,
      reads.same inst_addr symbols near ∙ encode-decode_instruction w inst_addr symbols h near,
    )
