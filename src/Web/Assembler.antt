-- ===== src/Web/Assembler.antt =====
-- web/src/assembler.go: the words that the page shows of an assembled program.
use mips.Prelude.{
  ℕ, zero, suc, ◌+◌, ◌/◌, List, [], ◌∷◌, Option, none, some, ltb, if◌then◌else◌, String,
}
use mips.Isa.{Result, ok, err, panic, ◌>>=◌}
use mips.Coding.Encode.{encode}
use mips.Executable.Image.{Executable, end, get}
use mips.Executable.Join.{parse_executable}
use mips.Assembly.Reading.Lexer.{tokenize_source}

abbrev pub max_assemble_size : ℕ
max_assemble_size = 0x1000

-- `Encode` returns 0 beside its error, and the error is dropped.
abbrev pub word_or_zero : Result ℕ → Result ℕ
word_or_zero (ok w) = ok w
word_or_zero (err e) = ok 0
word_or_zero panic = panic

unfoldable pub data_at : Executable → ℕ → Result ℕ
data_at exc addr = elim (get exc addr) [
  | some inst ↦ word_or_zero (encode inst addr exc.symbols)
  | none ↦ ok 0
]

-- The loop, a round for each of the words; the end is a multiple of 4.
unfoldable pub data_from : ℕ → Executable → ℕ → Result (List ℕ)
unfolding data_at
data_from zero exc addr = ok []
data_from (suc rounds) exc addr = do
  w ← data_at exc addr
  ws ← data_from rounds exc (addr + 4)
  ok (w ∷ ws)

-- What is given to the disassembler's view: nothing for a large program.
unfoldable pub shown_data : Executable → Result (Option (List ℕ))
unfolding data_from
shown_data exc =
    if ltb (end exc) max_assemble_size
    then (do ws ← data_from (end exc / 4) exc 0; ok (some ws))
    else ok none

-- `Assemble`: the program for the debugger, and the words.
unfoldable pub assemble : String → Result (Executable × Option (List ℕ))
unfolding shown_data
assemble text = do
  lines ← tokenize_source text
  exc ← parse_executable lines
  data' ← shown_data exc
  ok (exc, data')
