-- ===== src/Assembly/Printing/Tests.antt =====
-- Lines printed.
use mips.Prelude.{◌≡◌, refl, [], ◌∷◌, some, true}
use mips.Assembly.Token.{no_token, no_line, TokenizedLine}
use mips.Assembly.Render.{constant_token}
use mips.Assembly.Printing.Numerals.{format_uint, format_int}
use mips.Assembly.Printing.Text.{line_string}

format_uint-hex : format_uint 16 0xfe01 ≡ "fe01"
unfolding format_uint
format_uint-hex = refl

format_int-negative : format_int 16 10 0xfffc ≡ "-4"
unfolding format_int format_uint
format_int-negative = refl

abbrev load : TokenizedLine
load = record no_line {
  instruction = some (record {
    name = "LW";
    arguments =
        record no_token { is_register = true; register = 31 }
        ∷ record no_token { is_memory = true; mem_register = 29; mem_offset = 0xfffc }
        ∷ [];
  });
  comment = some " reload";
}

line_string-load : line_string load ≡ "LW $31, -4($29) # reload"
unfolding line_string format_uint format_int
line_string-load = refl

abbrev branch : TokenizedLine
branch = record no_line {
  instruction = some (record {
    name = "BGTZ";
    arguments =
        record no_token { is_register = true; register = 0 } ∷ constant_token 0xfffffff8 ∷ [];
  });
}

line_string-branch : line_string branch ≡ "BGTZ $0, -8"
unfolding line_string format_uint format_int
line_string-branch = refl

line_string-comment : line_string (record no_line { comment = some "x" }) ≡ "#x"
unfolding line_string format_uint format_int
line_string-comment = refl
