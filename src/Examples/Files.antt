-- ===== src/Examples/Files.antt =====
-- Small files, and the theorems on the commands and on lines at them.
use mips.Prelude.{
  subst, false, ◌<◌, ◌^◌, ℕ, suc, ◌/◌, ◌≡◌, ◌≢◌, refl, List, [], ◌∷◌, true, none, some, arith, All,
}
use mathlib.Core.Logic.{◌↔◌}
use mips.Isa.{ok, panic}
use mips.Coding.Decode.{decode_instruction}
use mips.Assembly.Token.{TokenizedLine, TokenizedDirective}
use mips.Assembly.Equal.{equal}
use mips.Assembly.Equal.Laws.{equal_iff}
use mips.Executable.Image.{Executable, end}
use mips.Executable.Join.{parse_executable}
use mips.Executable.Source.{image}
use mips.Executable.Refines.{HasRoom}
use mips.Commands.Assemble.{write_from}
use mips.Commands.Output.{write_from-parse_executable}
use mathlib.Core.Option.{some-injective}
use mips.Memory.Lazy.{lazy_ops}
use mips.Memory.Lazy.Laws.{lazy_laws}
use mips.Emulator.Run.{run, initial_emulator}
use mips.Emulator.Safety.Valid.{IsValid}
use mips.Emulator.Safety.Source.{IsLexed, run-parse_executable}
use mips.Examples.Sources.{word_at}

-- SLTI $r15, $r5, -10; NOP
abbrev pub binary : List ℕ
binary = 0xf6 ∷ 0xff ∷ 0xaf ∷ 0x28 ∷ 0 ∷ 0 ∷ 0 ∷ 0 ∷ []

abbrev pub two_words : List TokenizedLine
two_words = word_at 1 0x28affff6 ∷ word_at 2 0 ∷ []

abbrev pub two_words_executable : Executable
two_words_executable = record {
  segments = (0, decode_instruction 0x28affff6 ∷ decode_instruction 0 ∷ []) ∷ [];
  symbols = [];
}

pub two_words-parsed : parse_executable two_words ≡ ok two_words_executable
unfolding parse_executable
two_words-parsed = refl

pub two_words-HasRoom : All HasRoom (image two_words 0)
unfolding image
two_words-HasRoom = (omega arith, (omega arith, tt))

write_from-parse_executable_example :
    write_from (suc (end two_words_executable / 4)) two_words_executable true 0 ≢ none
write_from-parse_executable_example =
    write_from-parse_executable two_words two_words_executable true two_words-parsed
      two_words-HasRoom

equal_iff_example : (equal (word_at 1 7) (word_at 2 7) ≡ true) ↔ (word_at 1 7 ≡ word_at 2 7)
equal_iff_example = equal_iff (word_at 1 7) (word_at 2 7)

short_line-IsLexed : (n c : ℕ) → c < 2 ^ 32 → IsLexed (word_at n c)
short_line-IsLexed n c h = record {
  constant-lt =
      λ dir p. subst (λ (d : TokenizedDirective). d.constant < 2 ^ 32) (some-injective _ dir p) h;
  tokens = λ t p. absurd (cc);
}

run-parse_executable_example :
    ((run lazy_ops 100 (initial_emulator two_words_executable true false)).0 ≢ some panic)
    × IsValid lazy_ops lazy_laws two_words_executable
        (run lazy_ops 100 (initial_emulator two_words_executable true false)).1
run-parse_executable_example =
    run-parse_executable two_words two_words_executable
      (short_line-IsLexed 1 0x28affff6 (omega arith), (short_line-IsLexed 2 0 (omega arith), tt))
      two_words-parsed true false 100
