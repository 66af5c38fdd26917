-- ===== src/Examples/Printing.antt =====
-- Printed lines, numbers and files, and the theorems on them.
use mips.Prelude.{◌≡◌, refl, List, [], ◌∷◌, ◌/◌, suc, true, false, some, arith, length}
use mips.Isa.{ok}
use mips.Assembly.Token.{TokenizedLine, no_line, no_token}
use mips.Assembly.Template.{templates}
use mips.Assembly.Reading.Numbers.{codes, digits_from, parse_int}
use mips.Assembly.Reading.Lexer.{tokenize_line, tokenize_source}
use mips.Assembly.Printing.Text.{line_string}
use mips.Assembly.Printing.Calls.{is_recognized}
use mips.Assembly.Printing.RoundTrip.{tokenize_line-line_string}
use mips.Formatting.{text_length, eight_digit_hex, format32_bit_hex, format8_bit_hex}
use mips.Formatting.Padding.{hex_texts}
use mips.Executable.Image.{Executable}
use mips.Executable.Join.{parse_executable}
use mips.Commands.Assemble.{write_from}
use mips.Commands.Disassemble.{disassemble}
use mips.Commands.Text.{output_text, reassemble_text}
use mips.Examples.Files.{binary}

-- sw $ra, -4($sp) # save
abbrev save_line : TokenizedLine
save_line = record no_line {
  comment = some " save";
  instruction = some (record {
    name = "SW";
    arguments =
        record no_token { is_register = true; register = 31 }
        ∷ record no_token { is_memory = true; mem_offset = 0xfffc; mem_register = 29 }
        ∷ [];
  });
}

save_line-read : tokenize_line "  sw $ra, -4($sp) # save" ≡ ok save_line
unfolding tokenize_line
save_line-read = refl

tokenize_line-line_string_example : tokenize_line (line_string save_line) ≡ ok save_line
unfolding is_recognized templates
tokenize_line-line_string_example =
    tokenize_line-line_string "  sw $ra, -4($sp) # save" save_line save_line-read refl

reassemble_text_example :
    (lines : List TokenizedLine) × (tokens : List TokenizedLine) × (exe : Executable) × (disassemble
        true binary
      ≡ some (ok lines))
    × (tokenize_source (output_text lines) ≡ ok tokens)
    × (parse_executable tokens ≡ ok exe)
    × (write_from (suc (length binary / 4)) exe true 0
        ≡ some (record { bytes = binary; result = ok tt }))
reassemble_text_example =
    reassemble_text true binary
      (
        omega arith,
        (
          omega arith,
          (
            omega arith,
            (omega arith, (omega arith, (omega arith, (omega arith, (omega arith, tt))))),
          ),
        ),
      )
      refl (omega arith)

hex_texts_example :
    (text_length (eight_digit_hex 0xbeef) ≡ 10)
    × (parse_int (eight_digit_hex 0xbeef) ≡ some (false, 0xbeef))
    × (text_length (format32_bit_hex 0xbeef) ≡ 10)
    × (parse_int (format32_bit_hex 0xbeef) ≡ some (false, 0xbeef))
    × (text_length (format8_bit_hex 10) ≡ 2)
    × (digits_from 16 0 (codes (format8_bit_hex 10)) ≡ some 10)
hex_texts_example = hex_texts 0xbeef 10 (omega arith) (omega arith)
