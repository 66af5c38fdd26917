-- ===== src/Web/Page.antt =====
-- The assembler's and the disassembler's view, one after the other.
use mips.Prelude.{
  ℕ, ◌+◌, ◌*◌, ◌/◌, ◌^◌, ◌<◌, ◌≡◌, refl, ap, ◌∙◌, List, [], ◌∷◌, Option, none, some, arith, All,
  length, map, false, lt→ltb,
}
use mips.Isa.{Instruction, ok}
use mips.Coding.Decode.{decode_instruction}
use mips.Coding.Encode.{encode}
use mips.Coding.Target.{SymbolTable}
use mips.Assembly.Token.{TokenizedLine}
use mips.Executable.Image.{Executable, end, get}
use mips.Executable.Join.{parse_executable}
use mips.Executable.Source.{image}
use mips.Executable.Refines.{HasRoom}
use mips.Commands.Writing.{word_for, word_in, Words}
use mips.Commands.Output.{EncodesTo, EncodesTo-Words}
use mips.Commands.Disassemble.{render_all}
use mips.Web.Assembler.{word_or_zero, data_at, data_from, shown_data, max_assemble_size}
use mips.Web.Disassembler.{data_text, disassemble, source}
use mips.Web.Disassembler.RoundTrip.{disassemble-data_text}

word_of_option :
    (o : Option Instruction) (addr : ℕ) (symbols : SymbolTable)
    → elim o [ some inst ↦ word_or_zero (encode inst addr symbols) | none ↦ ok 0 ]
      ≡ word_or_zero (word_for o addr symbols)
word_of_option none addr symbols = refl
word_of_option (some inst) addr symbols = refl

data_at-word_in : (exe : Executable) (addr : ℕ) → data_at exe addr ≡ word_or_zero (word_in exe addr)
unfolding data_at
data_at-word_in exe addr = word_of_option (get exe addr) addr exe.symbols

data_from-Words :
    (exe : Executable) (addr : ℕ) (ws : List ℕ)
    → Words exe addr ws
    → data_from (length ws) exe addr ≡ ok ws
unfolding data_from
data_from-Words exe addr [] words = refl
data_from-Words exe addr (w ∷ ws) words =
    rw
      (
        data_at-word_in exe addr ∙ ap word_or_zero words.0,
        data_from-Words exe (addr + 4) ws words.1,
      )
      refl

-- On an accepted source whose instructions stand at addresses `a` with `a + 4 < 2 ^ 32` and are
-- encoded without an error, as the 32-bit words of a list that reaches up to its end, 0 standing
-- where it has no instruction, and whose end is below the limit of the page (0x1000), the page
-- shows just these words, and disassembles what it shows without an error, to the lines that the
-- words, decoded, are rendered as.
pub shown_data-disassemble :
    (lines : List TokenizedLine) (exe : Executable) (ws : List ℕ)
    → parse_executable lines ≡ ok exe
    → All HasRoom (image lines 0)
    → EncodesTo (image lines 0) exe.symbols 0 ws
    → 4 * length ws ≡ end exe
    → end exe < max_assemble_size
    → All (λ w. w < 2 ^ 32) ws
    → (shown_data exe ≡ ok (some ws))
      × ((renderings : List TokenizedLine) × (render_all (map decode_instruction ws)
            ≡ ok renderings)
          × (disassemble (data_text ws) ≡ source (ok renderings)))
unfolding shown_data
shown_data-disassemble lines exe ws parsed room encoded at_end near small =
    let words = EncodesTo-Words lines exe false parsed room 0 ws refl encoded in
    let rounds : end exe / 4 ≡ length ws = omega (arith, at_end) in
    (
      rw (lt→ltb (end exe) max_assemble_size near, rounds, data_from-Words exe 0 ws words) refl,
      disassemble-data_text ws small (omega (arith, at_end, near)),
    )
