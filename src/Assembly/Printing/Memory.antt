-- ===== src/Assembly/Printing/Memory.antt =====
-- References to memory, and symbols, that are printed and read again.
use Prim.Native.Char.{code}
use mips.Prelude.{
  ℕ, ◌^◌, ◌<◌, ◌≡◌, refl, sym, ap, ◌∙◌, String, List, Bool, true, false, ◌&&◌, not, ◌==◌, bit_and,
  arith, none, some, inl, inr, Bool-cases,
}
use mips.Isa.{ok, err, u16, sext16, missing_dollar}
use mips.Bits.Fields.{bit_and_high}
use mips.Assembly.Token.{
  ArgToken, no_token, register_of, unsigned_constant16_of, signed_constant16_of, constant5_of,
  relative_code_pointer_of, absolute_code_pointer_of, memory_reference_of,
}
use mips.Assembly.Template.{
  register, signed_constant16, unsigned_constant16, constant5, absolute_code_pointer,
  relative_code_pointer, memory_address, accepts,
}
use mips.Assembly.Reading.Registers.{parse_register}
use mips.Assembly.Reading.Numbers.{codes, parse_constant}
use mips.Assembly.Reading.Tokens.{
  all_of, is_constant_text, is_word_char, is_memory_text, is_empty, before_close, split_first,
  split_last, split_if_closed, parse_offset, parse_arg_token, parse_register_arg_token,
  parse_memory_arg_token,
}
use mips.Assembly.Printing.Numerals.{
  ◌+++◌, format_uint, format_int, register_to_string, signed_const16_to_string,
}
use mips.Assembly.Printing.Text.{argument_string}
use mips.Assembly.Printing.Strings.{
  all_of-append, all_of-append_false, append_assoc, no_open, is_digit-no_open,
  is_constant_text-no_open, is_word_char-no_open, all_of_mono,
}
use mips.Assembly.Printing.ReadBack.{parse_constant-format_int16}
use mips.Assembly.Printing.Arguments.{
  Reprints, is_plain, format_uint-all_of, format_int-all_of, format_int-is_constant_text,
  parse_register-register_to_string, is_word_char-is_plain, signed_plain, unsigned_plain, no_dollar,
  is_digit-no_dollar,
}

before_close-append : (s : String) → before_close (s +++ ")") ≡ some s
unfolding before_close ◌+++◌
before_close-append String.[] = refl
before_close-append (String.◌∷◌ c String.[]) = refl
before_close-append (String.◌∷◌ c (String.◌∷◌ d s)) = rw (before_close-append (String.◌∷◌ d s)) refl

split_first-append :
    (a b : String) → all_of no_open (codes a) ≡ true → split_first (a +++ "(" +++ b) ≡ some (a, b)
unfolding split_first ◌+++◌
split_first-append String.[] b h = refl
split_first-append (String.◌∷◌ c a) b h =
    let other : (code c == 0x28) ≡ false = ground (arith, h) in
    rw (other, split_first-append a b (ground (arith, h))) refl

split_last-none : (b : String) → all_of no_open (codes b) ≡ true → split_last b ≡ none
unfolding split_last
split_last-none String.[] h = refl
split_last-none (String.◌∷◌ c b) h =
    let other : (code c == 0x28) ≡ false = ground (arith, h) in
    rw (split_last-none b (ground (arith, h)), other) refl

split_last-append :
    (a b : String) → all_of no_open (codes b) ≡ true → split_last (a +++ "(" +++ b) ≡ some (a, b)
unfolding split_last ◌+++◌
split_last-append String.[] b h = rw (split_last-none b h) refl
split_last-append (String.◌∷◌ c a) b h = rw (split_last-append a b h) refl

-- a test that no opening parenthesis passes fails for a text that has one
open-fails :
    (p : List ℕ → Bool)
    → ((cs : List ℕ) → p cs ≡ true → all_of no_open cs ≡ true)
    → (a b : String) → p (codes (a +++ "(" +++ b)) ≡ false
unfolding ◌+++◌
open-fails p each a b = elim (Bool-cases (p (codes (a +++ "(" +++ b)))) [
  | inr fails ↦ fails
  | inl passes ↦
      let has = all_of-append_false no_open a ("(" +++ b) refl in
      let none_has = each (codes (a +++ "(" +++ b)) passes in absurd (cc)
]

pub is_empty-parse_constant : (s : String) (c : ℕ) → parse_constant s ≡ ok c → is_empty s ≡ false
unfolding parse_constant
is_empty-parse_constant String.[] c h = absurd (cc)
is_empty-parse_constant (String.◌∷◌ d s) c h = refl

offset_fits :
    (o : ℕ)
    → o < 2 ^ 16
    → (not (bit_and (sext16 o) 0xffff8000 == 0xffff8000)
        && not (bit_and (sext16 o) 0xffff8000 == 0))
      ≡ false
offset_fits o h = ground (arith, h, bit_and_high 17 15 (sext16 o))

parse_offset-read : (o : ℕ) → o < 2 ^ 16 → parse_offset (format_int 16 10 o) ≡ ok o
unfolding parse_offset
parse_offset-read o h =
    let read = parse_constant-format_int16 o h in
    let same : u16 (sext16 o) ≡ o = ground (arith, h) in
    rw (is_empty-parse_constant (format_int 16 10 o) (sext16 o) read, read, offset_fits o h, same)
      refl

memory_text : ℕ → ℕ → String
memory_text o r = format_int 16 10 o +++ "(" +++ register_to_string r +++ ")"

memory_text-inside :
    (o r : ℕ)
    → before_close (memory_text o r) ≡ some (format_int 16 10 o +++ "(" +++ register_to_string r)
unfolding memory_text
memory_text-inside o r =
    ap (λ t. before_close (format_int 16 10 o +++ t))
      (sym (append_assoc "(" (register_to_string r) ")"))
    ∙ ap before_close (sym (append_assoc (format_int 16 10 o) ("(" +++ register_to_string r) ")"))
    ∙ before_close-append (format_int 16 10 o +++ "(" +++ register_to_string r)

memory_text-split :
    (o r : ℕ)
    → split_if_closed (before_close (memory_text o r))
      ≡ some (format_int 16 10 o, register_to_string r)
unfolding register_to_string
memory_text-split o r =
    ap split_if_closed (memory_text-inside o r)
    ∙ split_last-append (format_int 16 10 o) (register_to_string r)
        (format_uint-all_of no_open is_digit-no_open r)

is_memory_text-pieces :
    (s inside a b : String)
    → before_close s ≡ some inside
    → split_first inside ≡ some (a, b)
    → is_constant_text (codes a) ≡ true
    → is_empty b ≡ false
    → is_memory_text s ≡ true
unfolding is_memory_text
is_memory_text-pieces s inside a b closed split number filled =
    rw (closed, is_memory_text) (rw (split, number, filled) refl)

is_memory_text-memory_text : (o r : ℕ) → is_memory_text (memory_text o r) ≡ true
unfolding register_to_string
is_memory_text-memory_text o r =
    is_memory_text-pieces (memory_text o r) (format_int 16 10 o +++ "(" +++ register_to_string r)
      (format_int 16 10 o) (register_to_string r) (memory_text-inside o r)
      (split_first-append (format_int 16 10 o) (register_to_string r)
        (format_int-all_of no_open is_digit-no_open refl 16 o))
      (format_int-is_constant_text 16 o) refl

parse_register-other :
    (s t : String)
    → is_empty s ≡ false
    → all_of no_dollar (codes s) ≡ true
    → parse_register (s +++ t) ≡ err (missing_dollar (s +++ t))
unfolding parse_register ◌+++◌
parse_register-other String.[] t more h = absurd (cc)
parse_register-other (String.◌∷◌ c s) t more h =
    let other : (code c == 0x24) ≡ false = ground (arith, h) in rw other refl

abbrev pub memory_token : ℕ → ℕ → ArgToken
memory_token o r = record no_token { is_memory = true; mem_offset = o; mem_register = r }

memory-read :
    (o r : ℕ) → o < 2 ^ 16 → r < 32 → parse_arg_token (memory_text o r) ≡ ok (memory_token o r)
unfolding parse_arg_token parse_register_arg_token parse_memory_arg_token memory_text ◌+++◌
memory-read o r ho hr =
    let filled =
      is_empty-parse_constant (format_int 16 10 o) (sext16 o) (parse_constant-format_int16 o ho) in
    let behind = register_to_string r +++ ")" in
    let no_register : parse_register (memory_text o r) ≡ err (missing_dollar (memory_text o r)) =
      parse_register-other (format_int 16 10 o) ("(" +++ behind) filled
        (format_int-all_of no_dollar is_digit-no_dollar refl 16 o) in
    let no_number : is_constant_text (codes (memory_text o r)) ≡ false =
      open-fails is_constant_text is_constant_text-no_open (format_int 16 10 o) behind in
    let no_word : all_of is_word_char (codes (memory_text o r)) ≡ false =
      open-fails (all_of is_word_char) (all_of_mono is_word_char no_open is_word_char-no_open)
        (format_int 16 10 o) behind in
    rw
      (
        no_register,
        no_number,
        no_word,
        is_memory_text-memory_text o r,
        memory_text-split o r,
        parse_register-register_to_string r hr,
        parse_offset-read o ho,
      )
      refl

memory_text-plain : (o r : ℕ) → all_of is_plain (codes (memory_text o r)) ≡ true
unfolding memory_text is_plain register_to_string ◌+++◌
memory_text-plain o r =
    all_of-append is_plain (format_int 16 10 o) ("(" +++ register_to_string r +++ ")")
      (signed_plain 16 o) (all_of-append is_plain (format_uint 10 r) ")" (unsigned_plain r) refl)

pub memory_token-Reprints : (o r : ℕ) → o < 2 ^ 16 → r < 32 → Reprints (memory_token o r)
unfolding accepts argument_string register_of signed_constant16_of unsigned_constant16_of
    constant5_of relative_code_pointer_of absolute_code_pointer_of memory_reference_of
    signed_const16_to_string memory_text
memory_token-Reprints o r ho hr register fit = absurd (cc)
memory_token-Reprints o r ho hr signed_constant16 fit = absurd (cc)
memory_token-Reprints o r ho hr unsigned_constant16 fit = absurd (cc)
memory_token-Reprints o r ho hr constant5 fit = absurd (cc)
memory_token-Reprints o r ho hr absolute_code_pointer fit = absurd (cc)
memory_token-Reprints o r ho hr relative_code_pointer fit = absurd (cc)
memory_token-Reprints o r ho hr memory_address fit = (memory-read o r ho hr, memory_text-plain o r)

abbrev pub symbol_token : String → ArgToken
symbol_token s = record no_token { is_symbol = true; symbol = s }

-- a symbol is printed as the text that it was read from
pub symbol_token-Reprints :
    (s : String)
    → parse_arg_token s ≡ ok (symbol_token s)
    → all_of is_word_char (codes s) ≡ true
    → Reprints (symbol_token s)
unfolding accepts argument_string register_of signed_constant16_of unsigned_constant16_of
    constant5_of relative_code_pointer_of absolute_code_pointer_of memory_reference_of
symbol_token-Reprints s read word register fit = absurd (cc)
symbol_token-Reprints s read word signed_constant16 fit = absurd (cc)
symbol_token-Reprints s read word unsigned_constant16 fit = absurd (cc)
symbol_token-Reprints s read word constant5 fit = absurd (cc)
symbol_token-Reprints s read word absolute_code_pointer fit =
    (read, all_of_mono is_word_char is_plain is_word_char-is_plain (codes s) word)
symbol_token-Reprints s read word relative_code_pointer fit =
    (read, all_of_mono is_word_char is_plain is_word_char-is_plain (codes s) word)
symbol_token-Reprints s read word memory_address fit = absurd (cc)
