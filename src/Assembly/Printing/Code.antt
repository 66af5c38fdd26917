-- ===== src/Assembly/Printing/Code.antt =====
-- The three kinds of printed code: `tokenizeLine` on each, without a comment.
use Prim.Native.Char.{Char, code}
use mips.Prelude.{
  ℕ, ◌^◌, ◌<◌, ◌≡◌, refl, sym, ap, ◌∙◌, subst, String, none, some, Bool, true, false, ◌||◌, ◌==◌,
  str_eq, eq_iff, arith, inl, inr, Bool-cases,
}
use mips.Isa.{ok}
use mips.Assembly.Token.{TokenizedLine, no_line}
use mips.Assembly.Reading.Numbers.{codes, is_digit, parse_constant}
use mips.Assembly.Reading.Tokens.{all_of, is_empty, is_word_char}
use mips.Assembly.Reading.Texts.{trim_right, trim_left, is_space}
use mips.Assembly.Reading.Lexer.{directive_match, operand_of, skip_blanks, is_blank, tokenize_code}
use mips.Assembly.Printing.Numerals.{◌+++◌, format_uint, unsigned_const32_to_string}
use mips.Assembly.Printing.Text.{directive_string}
use mips.Assembly.Printing.Strings.{
  all_of-append, append_assoc, all_of_mono, is_constant_text-digits,
}
use mips.Assembly.Printing.ReadBack.{parse_constant-format_uint, all_of-is_digit}
use mips.Assembly.Printing.Arguments.{is_plain, unsigned_plain, is_word_char-is_plain}
use mips.Assembly.Printing.Memory.{is_empty-parse_constant}
use mips.Assembly.Printing.Trimming.{
  is_code, is_solid, is_plain-is_code, is_plain-is_solid, no_mark, is_code-no_mark,
  trim_left-append, trim_right-append, trim_right-solid, symbol_match-append,
}
use mips.Assembly.Printing.Operands.{is_empty-append}

-- Code without spaces around it or the mark of a comment, that is read as a line.
pub record Reads (text : String) (line : TokenizedLine) : Type 0 where
  pub unmarked : all_of no_mark (codes text) ≡ true
  pub left : (t : String) → trim_left (text +++ t) ≡ (text +++ t)
  pub right : trim_right text ≡ text
  pub read : tokenize_code text ≡ ok line

pub plain_mono :
    (p : ℕ → Bool)
    → ((c : ℕ) → is_plain c ≡ true → p c ≡ true)
    → (s : String) → all_of is_plain (codes s) ≡ true
    → all_of p (codes s) ≡ true
plain_mono p each s h = all_of_mono is_plain p each (codes s) h

pub code_no_mark : (s : String) → all_of is_code (codes s) ≡ true → all_of no_mark (codes s) ≡ true
code_no_mark s h = all_of_mono is_code no_mark is_code-no_mark (codes s) h

pub left_of :
    (s t : String)
    → is_empty s ≡ false
    → all_of is_solid (codes s) ≡ true
    → (u : String) → trim_left ((s +++ t) +++ u) ≡ ((s +++ t) +++ u)
left_of s t filled solid u =
    ap trim_left (append_assoc s t u)
    ∙ trim_left-append s (t +++ u) filled solid
    ∙ sym (append_assoc s t u)

pub right_of :
    (s t : String)
    → is_empty t ≡ false
    → all_of is_plain (codes t) ≡ true
    → trim_right (s +++ " " +++ t) ≡ (s +++ " " +++ t)
unfolding ◌+++◌
right_of s t filled plain = trim_right-append s (" " +++ t) refl (
    trim_right-append " " t filled
      (trim_right-solid t (plain_mono is_solid is_plain-is_solid t plain)))

-- a text that begins with no dot
pub directive_match-other :
    (c : Char) (s : String) → (code c == 0x2e) ≡ false → directive_match (String.◌∷◌ c s) ≡ none
unfolding directive_match
directive_match-other c String.[] h = refl
directive_match-other c (String.◌∷◌ d String.[]) h = refl
directive_match-other c (String.◌∷◌ d (String.◌∷◌ e String.[])) h = refl
directive_match-other c (String.◌∷◌ d (String.◌∷◌ e (String.◌∷◌ f String.[]))) h = refl
directive_match-other c (String.◌∷◌ d (String.◌∷◌ e (String.◌∷◌ f (String.◌∷◌ g s)))) h = rw h refl

is_word_char-no_mark : (c : ℕ) → is_word_char c ≡ true → no_mark c ≡ true
unfolding is_word_char is_digit
is_word_char-no_mark c h = ground (arith, h)

symbol-directive_match :
    (s : String) → all_of is_word_char (codes s) ≡ true → directive_match (s +++ ":") ≡ none
unfolding ◌+++◌ is_word_char is_digit
symbol-directive_match String.[] h = directive_match-other ":" String.[] refl
symbol-directive_match (String.◌∷◌ c s) h = directive_match-other c (s +++ ":") (ground (arith, h))

symbol-left :
    (s : String)
    → all_of is_word_char (codes s) ≡ true
    → (t : String) → trim_left ((s +++ ":") +++ t) ≡ ((s +++ ":") +++ t)
unfolding ◌+++◌ is_space
symbol-left String.[] h t = trim_left-append ":" t refl refl
symbol-left (String.◌∷◌ c s) h t =
    left_of (String.◌∷◌ c s) ":" refl
      (plain_mono is_solid is_plain-is_solid (String.◌∷◌ c s)
        (all_of_mono is_word_char is_plain is_word_char-is_plain (codes (String.◌∷◌ c s)) h))
      t

-- a symbol's mark
pub symbol-Reads :
    (s : String)
    → all_of is_word_char (codes s) ≡ true
    → Reads (s +++ ":") (record no_line { symbol_marker = some s })
unfolding tokenize_code is_space
symbol-Reads s h = record {
  unmarked =
      all_of-append no_mark s ":"
        (all_of_mono is_word_char no_mark is_word_char-no_mark (codes s) h) refl;
  left = symbol-left s h;
  right = trim_right-append s ":" refl (trim_right-solid ":" refl);
  read = rw (is_empty-append s ":" refl, symbol-directive_match s h, symbol_match-append s h) refl;
}

skip_blanks-digits : (s : String) → all_of is_digit (codes s) ≡ true → skip_blanks s ≡ s
unfolding skip_blanks is_blank is_digit
skip_blanks-digits String.[] h = refl
skip_blanks-digits (String.◌∷◌ c s) h =
    let dark : is_blank (code c) ≡ false = ground (arith, h) in rw dark refl

operand_of-digits :
    (n s : String)
    → all_of is_digit (codes s) ≡ true
    → operand_of n (String.◌∷◌ " " s) ≡ some (n, s)
unfolding operand_of is_blank
operand_of-digits n s h = rw (skip_blanks-digits s h, is_constant_text-digits (codes s) h) refl

text_read :
    (text : String) (n digits : String) (c : ℕ)
    → is_empty text ≡ false
    → directive_match text ≡ some (n, digits)
    → parse_constant digits ≡ ok c
    → tokenize_code text
      ≡ ok (record no_line { directive = some (record { name = n; constant = c }) })
unfolding tokenize_code
text_read text n digits c filled matched read = rw (filled, matched) (rw read refl)

-- the names of the directives that are recognized
abbrev pub is_directive : String → Bool
is_directive n = str_eq n "text" || str_eq n "word"

directive-match :
    (n : String) (c : ℕ)
    → is_directive n ≡ true
    → directive_match (directive_string (record { name = n; constant = c }))
      ≡ some (n, format_uint 10 c)
unfolding directive_match directive_string unsigned_const32_to_string ◌+++◌
directive-match n c h = elim (Bool-cases (str_eq n "text")) [
  | inl same ↦
      subst
        (λ m.
          directive_match (directive_string (record { name = m; constant = c }))
          ≡ some (m, format_uint 10 c))
        (sym ((eq_iff n "text").0 same))
        (operand_of-digits "text" (format_uint 10 c) (all_of-is_digit c))
  | inr other ↦
      let same : str_eq n "word" ≡ true = rw other at h in
      subst
        (λ m.
          directive_match (directive_string (record { name = m; constant = c }))
          ≡ some (m, format_uint 10 c))
        (sym ((eq_iff n "word").0 same))
        (operand_of-digits "word" (format_uint 10 c) (all_of-is_digit c))
]

directive-plain : (n : String) → is_directive n ≡ true → all_of is_plain (codes n) ≡ true
unfolding is_plain is_word_char is_digit
directive-plain n h = elim (Bool-cases (str_eq n "text")) [
  | inl same ↦ subst (λ m. all_of is_plain (codes m) ≡ true) (sym ((eq_iff n "text").0 same)) refl
  | inr other ↦
      let same : str_eq n "word" ≡ true = rw other at h in
      subst (λ m. all_of is_plain (codes m) ≡ true) (sym ((eq_iff n "word").0 same)) refl
]

pub directive-Reads :
    (n : String) (c : ℕ)
    → is_directive n ≡ true
    → c < 2 ^ 32
    → Reads
        (directive_string (record { name = n; constant = c }))
        (record no_line { directive = some (record { name = n; constant = c }) })
unfolding directive_string unsigned_const32_to_string is_code ◌+++◌ is_space
directive-Reads n c h small =
    let plain = directive-plain n h in
    let number = unsigned_plain c in
    record {
      unmarked = code_no_mark (directive_string (record { name = n; constant = c })) (
          all_of-append is_code n (" " +++ format_uint 10 c)
            (plain_mono is_code is_plain-is_code n plain)
            (plain_mono is_code is_plain-is_code (format_uint 10 c) number));
      left = λ t. trim_left-append "." ((n +++ " " +++ format_uint 10 c) +++ t) refl refl;
      right =
          right_of (String.◌∷◌ "." n) (format_uint 10 c)
            (is_empty-parse_constant (format_uint 10 c) c (parse_constant-format_uint c small))
            number;
      read =
          text_read (directive_string (record { name = n; constant = c })) n (format_uint 10 c) c
            refl (directive-match n c h) (parse_constant-format_uint c small);
    }
