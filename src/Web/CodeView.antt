-- ===== src/Web/CodeView.antt =====
-- web/src/code_view.go: the seven rows around the program counter.
mod Tests
use mips.Prelude.{
  ℕ, zero, suc, ◌+◌, ◌*◌, ◌/◌, String, List, [], ◌∷◌, Bool, Option, none, some, ltb, ◌==◌,
  if◌then◌else◌,
}
use mips.Isa.{Instruction, Result, ok, err, panic, add32, sub32, u32}
use mips.Coding.Encode.{encode}
use mips.Assembly.Render.{render}
use mips.Assembly.Token.{TokenizedLine}
use mips.Assembly.Printing.Text.{line_string}
use mips.Executable.Image.{Executable, get}
use mips.Emulator.State.{Emulator}
use mips.Formatting.{format32_bit_hex}

abbrev pub preview_line_count : ℕ
preview_line_count = 7

-- a row, with the mark of the current instruction
pub record Row : Type 0 where
  pub addr : String
  pub code_text : String
  pub opcode : String
  pub is_current : Bool

abbrev pub rendering_text : Result TokenizedLine → String
rendering_text (ok rendering) = line_string rendering
rendering_text _ = "(Unknown)"

abbrev pub opcode_text : Result ℕ → String
opcode_text (ok opcode) = format32_bit_hex opcode
opcode_text _ = "(invalid)"

-- `createCodeViewLine`, with the class that `Update` adds
unfoldable pub code_view_line : Executable → ℕ → ℕ → Row
unfolding line_string render
code_view_line exe program_counter addr' = record {
  addr = format32_bit_hex addr';
  code_text = elim (get exe addr') [ some inst ↦ rendering_text (render inst) | none ↦ "NOP" ];
  opcode = elim (get exe addr') [
    | some inst ↦ opcode_text (encode inst addr' exe.symbols)
    | none ↦ format32_bit_hex 0
  ];
  is_current = addr' == program_counter;
}

unfoldable pub start_address : ℕ → ℕ
start_address program_counter =
    if ltb (preview_line_count / 2) (program_counter / 4)
    then sub32 program_counter (preview_line_count / 2 * 4)
    else 0

-- the loop over the rows from the i-th on
unfoldable pub rows_from : ℕ → ℕ → Executable → ℕ → ℕ → List Row
unfolding code_view_line
rows_from zero i exe program_counter start = []
rows_from (suc left) i exe program_counter start =
    code_view_line exe program_counter (add32 start (u32 (i * 4)))
    ∷ rows_from left (i + 1) exe program_counter start

unfoldable pub view_rows : {M : Type 0} → Emulator M → List Row
unfolding start_address rows_from
view_rows e =
    rows_from preview_line_count 0 e.executable e.program_counter (start_address e.program_counter)
