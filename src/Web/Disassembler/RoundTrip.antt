-- ===== src/Web/Disassembler/RoundTrip.antt =====
-- The words that are shown, disassembled.
use mips.Prelude.{
  ℕ, ◌*◌, ◌%◌, ◌^◌, ◌<◌, ◌≡◌, refl, ap, ◌∙◌, List, [], ◌∷◌, false, some, arith, length, map, All,
}
use mips.Isa.{ok}
use mips.Coding.Decode.{decode_instruction}
use mips.Assembly.Token.{TokenizedLine}
use mips.Assembly.Reading.Numbers.{codes}
use mips.Formatting.Padding.{pad_hex-length, pad_hex-digits_from}
use mips.Commands.Disassemble.{instructions_in, render_all}
use mips.Commands.Reading.{render_all-AreWords}
use mips.Web.Disassembler.{word_text, data_text, decode_hex, source, shown_of, disassemble}
use mips.Web.Disassembler.Stripping.{word_digits, codes-data_text}
use mips.Web.Disassembler.Hex.{eight_digits}

-- what the digits of all words are decoded to
record Data (ws : List ℕ) : Type 0 where
  data' : List ℕ
  decoded : decode_hex (word_digits ws) ≡ some data'
  size : length data' ≡ 4 * length ws
  words : instructions_in false data' ≡ map decode_instruction ws

word_digits-Data : (ws : List ℕ) → All (λ w. w < 2 ^ 32) ws → Data ws
unfolding word_digits decode_hex instructions_in
word_digits-Data [] small = record { data' = []; decoded = refl; size = refl; words = refl }
word_digits-Data (w ∷ ws) small =
    let b =
      eight_digits w (codes (word_text w)) (pad_hex-length 7 w (omega arith) small.0)
        (pad_hex-digits_from 8 8 w small.0) in
    let rest = word_digits-Data ws small.1 in
    record {
      data' = b.b0 ∷ b.b1 ∷ b.b2 ∷ b.b3 ∷ rest.data';
      decoded = b.decoded (word_digits ws) rest.data' rest.decoded;
      size = omega (arith, rest.size);
      words =
          ap (λ v. decode_instruction v ∷ instructions_in false rest.data') b.word
          ∙ ap (λ is. decode_instruction w ∷ is) rest.words;
    }

-- The words that the assembler shows, fewer than 2 ^ 26 of 32 bits, are disassembled without an
-- error: to the lines that each of the words, decoded, is rendered as.
pub disassemble-data_text :
    (ws : List ℕ)
    → All (λ w. w < 2 ^ 32) ws
    → length ws < 2 ^ 26
    → (lines : List TokenizedLine) × (render_all (map decode_instruction ws) ≡ ok lines)
      × (disassemble (data_text ws) ≡ source (ok lines))
unfolding disassemble shown_of
disassemble-data_text ws small near =
    let (lines, rendered, words) = render_all-AreWords 0 ws small (omega (arith, near)) in
    let d = word_digits-Data ws small in
    let even : length d.data' % 4 ≡ 0 = omega (arith, d.size) in
    (
      lines,
      rendered,
      ap shown_of (ap decode_hex (codes-data_text ws) ∙ d.decoded)
          ∙ rw even (ap source (ap render_all d.words ∙ rendered)),
    )
