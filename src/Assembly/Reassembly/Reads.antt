-- ===== src/Assembly/Reassembly/Reads.antt =====
-- What it means that a rendered instruction is read again.
use mips.Prelude.{ℕ, ◌^◌, ◌<◌, ◌≡◌, refl, some}
use mips.Isa.{Instruction, ok, add32}
use mips.Coding.Target.{SymbolTable}
use mips.Coding.Encode.{encode}
use mips.Assembly.Token.{TokenizedLine}
use mips.Assembly.Render.{render}
use mips.Assembly.Lines.{line_instruction}

-- The line that an instruction is rendered as is read as one with the same encoding.
pub record Reads (i : Instruction) : Type 0 where
  pub line : TokenizedLine
  pub back : Instruction
  pub rendered : render i ≡ ok line
  pub read : line_instruction line ≡ some (ok back)
  pub same :
      (inst_addr : ℕ) (symbols : SymbolTable)
      → add32 inst_addr 4 < 2 ^ 28
      → encode back inst_addr symbols ≡ encode i inst_addr symbols

-- An instruction that is read as it was.
pub unchanged :
    {i : Instruction} (line : TokenizedLine)
    → render i ≡ ok line
    → line_instruction line ≡ some (ok i)
    → Reads i
unchanged {i} line rendered read = record {
  line = line;
  back = i;
  rendered = rendered;
  read = read;
  same = λ _ _ _. refl;
}
