-- ===== src/Web/Disassembler.antt =====
-- web/src/disassembler.go: words as text, and text as instructions.
pub mod Stripping
pub mod Hex
pub mod RoundTrip
use Prim.Native.Char.{Char, code}
use mips.Prelude.{
  ℕ, ◌+◌, ◌*◌, String, List, [], ◌∷◌, Bool, true, false, ◌&&◌, not, Option, none, some, ltb, ◌==◌,
  ◌%◌, if◌then◌else◌, length, map,
}
use mips.Isa.{Result, ok, err, ◌>>=◌}
use mips.Coding.Decode.{decode_instruction}
use mips.Assembly.Token.{TokenizedLine}
use mips.Assembly.Render.{render}
use mips.Assembly.Reading.Numbers.{codes, digit_value}
use mips.Assembly.Printing.Numerals.{◌+++◌, format_uint}
use mips.Assembly.Printing.Text.{line_string}
use mips.Formatting.{pad}
use mips.Commands.Disassemble.{instructions_in, render_all}

unfoldable pub join_with : String → List String → String
unfolding ◌+++◌
join_with separator [] = ""
join_with separator (s ∷ []) = s
join_with separator (s ∷ t ∷ rest) = s +++ separator +++ join_with separator (t ∷ rest)

abbrev pub word_text : ℕ → String
word_text w = pad 8 8 (format_uint 16 w)

-- `SetData`
unfoldable pub data_text : List ℕ → String
unfolding join_with
data_text ws = join_with " " (map word_text ws)

-- strings.Replace(text, c, "", -1)
unfoldable pub remove : ℕ → String → String
remove c String.[] = String.[]
remove c (String.◌∷◌ d s) = let rest = remove c s in if code d == c then rest else String.◌∷◌ d rest

unfoldable pub strip : String → String
unfolding remove
strip text = remove 0x09 (remove 0x0a (remove 0x20 text))

abbrev pub cons_byte : ℕ → ℕ → Option (List ℕ) → Option (List ℕ)
cons_byte high low (some rest) =
    if ltb high 16 && ltb low 16 then some ((high * 16 + low) ∷ rest) else none
cons_byte high low none = none

-- hex.DecodeString: an even number of digits
unfoldable pub decode_hex : List ℕ → Option (List ℕ)
unfolding digit_value
decode_hex [] = some []
decode_hex (c ∷ []) = none
decode_hex (c ∷ d ∷ rest) = cons_byte (digit_value c) (digit_value d) (decode_hex rest)

-- What the page shows of a text: an error for what is no data, and the source otherwise.
pub data Shown : Type 0 where
  bad_data bad_size : Shown
  source : Result (List TokenizedLine) → Shown

unfoldable pub shown_of : Option (List ℕ) → Shown
unfolding instructions_in render_all
shown_of none = bad_data
shown_of (some data') =
    if not (length data' % 4 == 0)
    then bad_size
    else source (render_all (instructions_in false data'))

-- `disassemble`, up to the text of the lines
unfoldable pub disassemble : String → Shown
unfolding strip decode_hex shown_of
disassemble text = shown_of (decode_hex (codes (strip text)))

-- the text that is set in the assembler's view
unfoldable pub joined_source : List TokenizedLine → String
unfolding join_with line_string
joined_source lines = join_with "\n" (map line_string lines)
