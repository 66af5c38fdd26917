-- ===== src/Examples/Text.antt =====
-- A text, from its characters to the run.
use mips.Prelude.{◌≡◌, ◌≢◌, refl, String, List, [], ◌∷◌, true, false, some}
use mips.Isa.{ok, err, panic, instruction, missing_comma, on_source_line}
use mips.Memory.Lazy.{lazy_ops}
use mips.Memory.Lazy.Laws.{lazy_laws}
use mips.Coding.Decode.{decode_instruction}
use mips.Assembly.Token.{TokenizedLine, no_line, no_token}
use mips.Assembly.Parse.{parse_tokenized_instruction}
use mips.Assembly.Reading.Lexer.{tokenize_source}
use mips.Executable.Image.{Executable}
use mips.Executable.Join.{parse_executable}
use mips.Emulator.Run.{run, initial_emulator}
use mips.Emulator.Safety.Valid.{IsValid}
use mips.Emulator.Safety.Text.{run-tokenize_source}

abbrev source_text : String
source_text = "loop: # go\n\n  jr $ra\n.word 0x7"

abbrev text_lines : List TokenizedLine
text_lines =
    record no_line { line_number = 1; comment = some " go"; symbol_marker = some "loop" }
    ∷ record no_line {
      line_number = 3;
      instruction = some (record {
        name = "JR";
        arguments = record no_token { is_register = true; register = 31 } ∷ [];
      });
    }
    ∷ record no_line { line_number = 4; directive = some (record { name = "word"; constant = 7 }) }
    ∷ []

source_text-tokenized : tokenize_source source_text ≡ ok text_lines
unfolding tokenize_source
source_text-tokenized = refl

no_comma : tokenize_source "NOP\nJALR $1 $2" ≡ err (on_source_line 2 (missing_comma 1))
unfolding tokenize_source
no_comma = refl

abbrev text_executable : Executable
text_executable = record {
  segments = (0, instruction "JR" (31 ∷ []) ∷ decode_instruction 7 ∷ []) ∷ [];
  symbols = ("loop", 0) ∷ [];
}

text_lines-parsed : parse_executable text_lines ≡ ok text_executable
unfolding parse_executable parse_tokenized_instruction
text_lines-parsed = refl

run-tokenize_source_example :
    ((run lazy_ops 100 (initial_emulator text_executable true false)).0 ≢ some panic)
    × IsValid lazy_ops lazy_laws text_executable
        (run lazy_ops 100 (initial_emulator text_executable true false)).1
run-tokenize_source_example =
    run-tokenize_source source_text text_lines text_executable true false 100 source_text-tokenized
      text_lines-parsed
