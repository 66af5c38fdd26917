-- ===== src/Commands/Text.antt =====
-- The text that mips-disas writes, and mips-as on it.
use Prim.Native.Char.{code}
use mips.Prelude.{
  ℕ, suc, ◌+◌, ◌/◌, ◌%◌, ◌^◌, ◌<◌, ◌≡◌, refl, sym, ap, ◌∙◌, String, List, [], ◌∷◌, Bool, true,
  false, none, some, ◌==◌, arith, All, length, map, inl, inr, Option-cases,
}
use mips.Isa.{ok, bind-ok}
use mips.Coding.Decode.{decode_instruction}
use mips.Assembly.Token.{TokenizedLine}
use mips.Assembly.Lines.{line_instruction}
use mips.Assembly.Render.{render}
use mips.Assembly.Reading.Numbers.{codes}
use mips.Assembly.Reading.Tokens.{all_of}
use mips.Assembly.Reading.Texts.{lines_from, split_lines}
use mips.Assembly.Reading.Lexer.{
  tokenize_line, tokenize_from, tokenize_source, is_zero_line, keep_line,
}
use mips.Assembly.Printing.Numerals.{◌+++◌}
use mips.Assembly.Printing.Text.{line_string, comment_string}
use mips.Assembly.Printing.Strings.{append_empty}
use mips.Assembly.Printing.Trimming.{no_mark}
use mips.Assembly.Printing.Lines.{Printed}
use mips.Assembly.Printing.RoundTrip.{Printed-bare}
use mips.Assembly.Printing.Rendered.{decoded-Printed}
use mips.Executable.Image.{Executable}
use mips.Executable.Join.{parse_executable}
use mips.Commands.Assemble.{write_from}
use mips.Commands.Disassemble.{render_all, disassemble}
use mips.Commands.Reading.{IsWord, AreWords, render_all-AreWords}
use mips.Commands.Bytes.{words_of}
use mips.Commands.RoundTrip.{assemble-AreWords, disassemble-render_all}

-- what the second loop of mips-disas writes
unfoldable pub output_text : List TokenizedLine → String
unfolding ◌+++◌ line_string
output_text [] = ""
output_text (rendering ∷ rest) = line_string rendering +++ "\n" +++ output_text rest

lines_from-append :
    (s t : String)
    → all_of no_mark (codes s) ≡ true
    → lines_from (s +++ "\n" +++ t) ≡ (s, split_lines t)
unfolding lines_from split_lines ◌+++◌
lines_from-append String.[] t h = refl
lines_from-append (String.◌∷◌ c s) t h =
    let other : (code c == 0x0a) ≡ false = ground (arith, h) in
    rw (lines_from-append s t (ground (arith, h)), other) refl

split_lines-append :
    (s t : String)
    → all_of no_mark (codes s) ≡ true
    → split_lines (s +++ "\n" +++ t) ≡ s ∷ split_lines t
unfolding split_lines
split_lines-append s t h = rw (lines_from-append s t h) refl

-- the lines with their numbers
unfoldable numbered : ℕ → List TokenizedLine → List TokenizedLine
numbered n [] = []
numbered n (line ∷ rest) = record line { line_number = n } ∷ numbered (n + 1) rest

-- a line of a word, as it is printed
record Written (line : TokenizedLine) : Type 0 where
  printed : Printed line
  filled : is_zero_line line ≡ false

Printed-no_mark :
    (line : TokenizedLine) → Printed line → all_of no_mark (codes (line_string line)) ≡ true
unfolding comment_string
Printed-no_mark line p =
    let same : line_string line ≡ p.text =
      ap line_string (sym p.bare) ∙ p.printed none ∙ append_empty p.text in
    ap (λ s. all_of no_mark (codes s)) same ∙ p.reads.unmarked

tokenize_from-cons :
    (n : ℕ) (text : String) (texts : List String) (line : TokenizedLine)
    (lines : List TokenizedLine)
    → tokenize_line text ≡ ok line
    → is_zero_line line ≡ false
    → tokenize_from (n + 1) texts ≡ ok lines
    → tokenize_from n (text ∷ texts) ≡ ok (record line { line_number = n } ∷ lines)
unfolding tokenize_from
tokenize_from-cons n text texts line lines read filled others =
    rw (read, others) (rw (filled, keep_line) refl)

tokenize_from-nothing : (n : ℕ) → tokenize_from n (split_lines "") ≡ ok []
unfolding tokenize_from split_lines tokenize_line
tokenize_from-nothing n = refl

tokenize_from-output_text :
    (n : ℕ) (lines : List TokenizedLine)
    → All Written lines
    → tokenize_from n (split_lines (output_text lines)) ≡ ok (numbered n lines)
unfolding output_text numbered
tokenize_from-output_text n [] all = tokenize_from-nothing n
tokenize_from-output_text n (line ∷ lines) all =
    ap (tokenize_from n) (
      split_lines-append (line_string line) (output_text lines)
        (Printed-no_mark line all.0.printed))
    ∙ tokenize_from-cons n (line_string line) (split_lines (output_text lines)) line
        (numbered (n + 1) lines) (Printed-bare line all.0.printed) all.0.filled
        (tokenize_from-output_text (n + 1) lines all.1)

numbered-AreWords :
    (n addr : ℕ) (ws : List ℕ) (lines : List TokenizedLine)
    → AreWords addr ws lines
    → AreWords addr ws (numbered n lines)
unfolding numbered line_instruction
numbered-AreWords n addr [] [] words = tt
numbered-AreWords n addr [] (line ∷ lines) words = absurd words
numbered-AreWords n addr (w ∷ ws) [] words = absurd words
numbered-AreWords n addr (w ∷ ws) (line ∷ lines) words = (
  record { back = words.0.back; read = words.0.read; encoded = words.0.encoded },
  numbered-AreWords (n + 1) (addr + 4) ws lines words.1,
)

is_zero_line-instruction :
    (line : TokenizedLine) {w addr : ℕ} → IsWord addr w line → is_zero_line line ≡ false
unfolding line_instruction
is_zero_line-instruction line word = elim (Option-cases line.comment) [
  | inr (c, commented) ↦ rw (commented, is_zero_line) refl
  | inl plain ↦ elim (Option-cases line.directive) [
    | inr (d, directed) ↦ rw (plain, is_zero_line) (rw directed refl)
    | inl bare ↦ elim (Option-cases line.instruction) [
      | inr (i, instructed) ↦ rw (plain, is_zero_line) (rw bare (rw instructed refl))
      | inl empty ↦ let q = rw (bare) at (rw (empty, line_instruction) at word.read) in absurd (cc)
    ]
  ]
]

render_all-Written :
    (addr : ℕ) (ws : List ℕ) (lines : List TokenizedLine)
    → All (λ w. w < 2 ^ 32) ws
    → render_all (map decode_instruction ws) ≡ ok lines
    → AreWords addr ws lines
    → All Written lines
unfolding render_all
render_all-Written addr [] [] small rendered words = tt
render_all-Written addr [] (line ∷ lines) small rendered words = absurd words
render_all-Written addr (w ∷ ws) [] small rendered words = absurd words
render_all-Written addr (w ∷ ws) (line ∷ lines) small rendered words =
    let (l, first, later) = bind-ok (render (decode_instruction w)) _ (line ∷ lines) rendered in
    let (ls, more, made) =
      bind-ok (render_all (map decode_instruction ws)) _ (line ∷ lines) later in
    let same : l ≡ line = cc in
    let others : ls ≡ lines = cc in
    (
      record {
        printed = decoded-Printed w line words.0.back small.0 (first ∙ ap ok same) words.0.read;
        filled = is_zero_line-instruction line words.0;
      },
      render_all-Written (addr + 4) ws lines small.1 (more ∙ ap ok others) words.1,
    )

-- A file of bytes whose length is a multiple of 4 and below 2 ^ 28 is disassembled by mips-disas,
-- in either byte order, to a text that mips-as tokenizes and parses without an error, and mips-as
-- ends on that text and writes the file back, byte by byte, in the same order.
pub reassemble_text :
    (little_endian : Bool) (binary : List ℕ)
    → All (λ b. b < 2 ^ 8) binary
    → length binary % 4 ≡ 0
    → length binary < 2 ^ 28
    → (lines : List TokenizedLine) × (tokens : List TokenizedLine) × (exe : Executable)
      × (disassemble little_endian binary ≡ some (ok lines))
      × (tokenize_source (output_text lines) ≡ ok tokens)
      × (parse_executable tokens ≡ ok exe)
      × (write_from (suc (length binary / 4)) exe little_endian 0
          ≡ some (record { bytes = binary; result = ok tt }))
unfolding tokenize_source
reassemble_text little_endian binary small whole near =
    let (ws, of) = words_of little_endian binary small whole in
    let (lines, rendered, words) =
      render_all-AreWords 0 ws of.small (omega (arith, of.size, near)) in
    let (exe, parsed, written) =
      assemble-AreWords little_endian binary ws of (numbered 1 lines) near
        (numbered-AreWords 1 0 ws lines words) in
    (
      lines,
      numbered 1 lines,
      exe,
      disassemble-render_all little_endian binary ws of lines whole rendered,
      tokenize_from-output_text 1 lines (render_all-Written 0 ws lines of.small rendered words),
      parsed,
      written,
    )
