-- ===== src/Commands/Output.antt =====
-- mips-as on a source that is accepted.
use mips.Prelude.{
  ℕ, suc, ◌+◌, ◌/◌, ◌%◌, ◌≡◌, ◌≢◌, ap, ◌∙◌, List, [], ◌∷◌, Bool, none, arith, All, lookup,
}
use mips.Isa.{Instruction, ok}
use mips.Coding.Target.{SymbolTable}
use mips.Assembly.Token.{TokenizedLine}
use mips.Executable.Image.{Executable, end, get}
use mips.Executable.Join.{parse_executable}
use mips.Executable.Source.{image}
use mips.Executable.Refines.{HasRoom, get-parse_executable}
use mips.Executable.Top.{end-IsSegment}
use mips.Commands.Assemble.{write_from}
use mips.Commands.Writing.{word_for, Words, write_from-ends}

-- The words of a list of addressed instructions, from an address on: 0 where there is none.
abbrev pub EncodesTo : List (ℕ × Instruction) → SymbolTable → ℕ → List ℕ → Type 0
EncodesTo words symbols addr [] = Unit
EncodesTo words symbols addr (w ∷ ws) =
    (word_for (lookup addr words) addr symbols ≡ ok w) × EncodesTo words symbols (addr + 4) ws

module _ (lines : List TokenizedLine) (exe : Executable) (little_endian : Bool)
    (parsed : parse_executable lines ≡ ok exe) (room : All HasRoom (image lines 0)) where
  pub EncodesTo-Words :
      (addr : ℕ) (ws : List ℕ)
      → addr % 4 ≡ 0
      → EncodesTo (image lines 0) exe.symbols addr ws
      → Words exe addr ws
  EncodesTo-Words addr [] even h = tt
  EncodesTo-Words addr (w ∷ ws) even h =
      let same : get exe addr ≡ lookup addr (image lines 0) =
        (get-parse_executable lines exe parsed room).1 addr
        ∙ ap (λ a. lookup a (image lines 0)) (omega (arith, even)) in
      (
        ap (λ o. word_for o addr exe.symbols) same ∙ h.0,
        EncodesTo-Words (addr + 4) ws (omega (arith, even)) h.1,
      )

  -- On an accepted source whose instructions stand at addresses `a` with `a + 4 < 2 ^ 32`, the loop
  -- of mips-as ends within a round for each word up to the end, and one more.
  pub write_from-parse_executable : write_from (suc (end exe / 4)) exe little_endian 0 ≢ none
  write_from-parse_executable =
      let (even, top, _) =
        end-IsSegment exe (get-parse_executable lines exe parsed room).0.segment in
      write_from-ends (end exe / 4) exe little_endian 0 top (omega (arith, even))
