-- ===== src/Formatting.antt =====
-- Numbers and registers as text: emulator.go and web/src/utils.go.
mod Tests
pub mod Padding
use mips.Prelude.{ℕ, zero, suc, ◌+◌, String, List, Bool, ltb, ◌==◌, length, get_or, if◌then◌else◌}
use mips.Assembly.Reading.Numbers.{codes}
use mips.Assembly.Printing.Numerals.{◌+++◌, format_uint}

-- len(s) of a text of ASCII characters
abbrev pub text_length : String → ℕ
text_length s = length (codes s)

-- The loop that puts zeros before a text, for at most `room` rounds; a round adds a character, so
-- a width of `room` is reached.
unfoldable pub pad : ℕ → ℕ → String → String
pad zero width s = s
pad (suc room) width s = if ltb (text_length s) width then pad room width (String.◌∷◌ "0" s) else s

unfoldable pub eight_digit_hex : ℕ → String
unfolding ◌+++◌
eight_digit_hex n = "0x" +++ pad 8 8 (format_uint 16 n)

unfoldable pub format32_bit_hex : ℕ → String
unfolding ◌+++◌
format32_bit_hex u = "0x" +++ pad 8 8 (format_uint 16 u)

unfoldable pub format8_bit_hex : ℕ → String
format8_bit_hex u = pad 2 2 (format_uint 16 u)

-- `String` of a `RegisterFile`: the label of a register, two or three characters wide
unfoldable pub left_label : ℕ → String
unfolding ◌+++◌
left_label i =
    let label = "r" +++ format_uint 10 i in if text_length label == 2 then label +++ " " else label

unfoldable pub register_row : List ℕ → ℕ → String
unfolding ◌+++◌ eight_digit_hex left_label
register_row r i =
    left_label i
    +++ " = "
    +++ eight_digit_hex (get_or r i 0)
    +++ "  "
    +++ "r"
    +++ format_uint 10 (i + 16)
    +++ " = "
    +++ eight_digit_hex (get_or r (i + 16) 0)

-- the rounds of the loop from `i` on
unfoldable pub register_rows : ℕ → ℕ → List ℕ → String
unfolding ◌+++◌ register_row
register_rows zero i r = ""
register_rows (suc rounds) i r =
    (if i == 0 then "" else "\n") +++ register_row r i +++ register_rows rounds (i + 1) r

unfoldable pub register_file_string : List ℕ → String
unfolding register_rows
register_file_string r = register_rows 16 0 r
