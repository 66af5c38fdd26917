-- ===== src/Assembly/Printing/Arguments.antt =====
-- Arguments that are printed, and read again.
use Prim.Native.Char.{code}
use mips.Prelude.{
  ℕ, ◌-◌, ◌^◌, ◌<◌, ◌≡◌, refl, ap, ◌∙◌, String, Bool, true, false, ◌||◌, not, ltb, ◌==◌, bit_and,
  arith, none, some, inl, inr, Bool-cases, Option-cases, all_below, all_below-lt, lookup_str,
  ==_iff,
}
use mips.Isa.{ok, u16, u8, sext16, ◌<<◌, ◌>>>◌}
use mips.Bits.Fields.{bit_and_high}
use mips.Assembly.Token.{
  ArgToken, no_token, register_of, unsigned_constant16_of, signed_constant16_of, constant5_of,
  relative_code_pointer_of, absolute_code_pointer_of, memory_reference_of,
}
use mips.Assembly.Template.{
  ArgumentType, register, signed_constant16, unsigned_constant16, constant5, absolute_code_pointer,
  relative_code_pointer, memory_address, accepts,
}
use mips.Assembly.Render.{constant_token}
use mips.Assembly.Reading.Registers.{register_names, parse_register}
use mips.Assembly.Reading.Numbers.{codes, is_digit, parse_constant}
use mips.Assembly.Reading.Tokens.{
  all_of, is_constant_text, is_word_char, parse_arg_token, parse_register_arg_token,
  parse_constant_arg_token,
}
use mips.Assembly.Printing.Numerals.{format_uint, format_int, register_to_string}
use mips.Assembly.Printing.Text.{argument_string}
use mips.Assembly.Printing.Strings.{all_of_mono, is_number-digits, is_constant_text-digits}
use mips.Assembly.Printing.ReadBack.{
  all_of-is_digit, parse_constant-format_uint, parse_constant-format_int16,
  parse_constant-format_int32,
}

-- The characters of a printed argument: no space, comma, colon, slash, `#` or `;`.
unfoldable pub is_plain : ℕ → Bool
unfolding is_word_char
is_plain c = is_word_char c || c == 0x24 || c == 0x28 || c == 0x29 || c == 0x2d

pub is_word_char-is_plain : (c : ℕ) → is_word_char c ≡ true → is_plain c ≡ true
unfolding is_plain
is_word_char-is_plain c h = ground (arith, h)

is_digit-is_plain : (c : ℕ) → is_digit c ≡ true → is_plain c ≡ true
unfolding is_plain is_word_char
is_digit-is_plain c h = ground (arith, h)

pub format_uint-all_of :
    (p : ℕ → Bool)
    → ((c : ℕ) → is_digit c ≡ true → p c ≡ true)
    → (n : ℕ) → all_of p (codes (format_uint 10 n)) ≡ true
format_uint-all_of p each n =
    all_of_mono is_digit p each (codes (format_uint 10 n)) (all_of-is_digit n)

pub format_int-all_of :
    (p : ℕ → Bool)
    → ((c : ℕ) → is_digit c ≡ true → p c ≡ true)
    → p 0x2d ≡ true
    → (w n : ℕ) → all_of p (codes (format_int w 10 n)) ≡ true
unfolding format_int
format_int-all_of p each minus w n = elim (Bool-cases (ltb n (2 ^ (w - 1)))) [
  | inl positive ↦ rw positive (format_uint-all_of p each n)
  | inr negative ↦ rw (negative, minus) (format_uint-all_of p each (2 ^ w - n))
]

pub format_int-is_constant_text : (w n : ℕ) → is_constant_text (codes (format_int w 10 n)) ≡ true
unfolding format_int is_constant_text
format_int-is_constant_text w n = elim (Bool-cases (ltb n (2 ^ (w - 1)))) [
  | inl positive ↦
      rw positive (is_constant_text-digits (codes (format_uint 10 n)) (all_of-is_digit n))
  | inr negative ↦
      rw negative
        (is_number-digits (codes (format_uint 10 (2 ^ w - n))) (all_of-is_digit (2 ^ w - n)))
]

-- A text that begins with no `$` names no register.
abbrev pub no_dollar : ℕ → Bool
no_dollar c = not (c == 0x24)

pub is_digit-no_dollar : (c : ℕ) → is_digit c ≡ true → no_dollar c ≡ true
unfolding is_digit
is_digit-no_dollar c h = ground (arith, h)

abbrev pub register_token : ℕ → ArgToken
register_token r = record no_token { is_register = true; register = r }

-- A token that is printed, as an argument of a type that it has, is read again.
abbrev pub Reprints : ArgToken → Type 0
Reprints t =
    (a : ArgumentType)
    → accepts a t ≡ true
    → (parse_arg_token (argument_string a t) ≡ ok t)
      × (all_of is_plain (codes (argument_string a t)) ≡ true)

names_register : ℕ → Bool
names_register r = elim (lookup_str (format_uint 10 r) register_names) [
  | some k ↦ k == r
  | none ↦ false
]

names_register-lookup_str :
    (r : ℕ) → names_register r ≡ true → lookup_str (format_uint 10 r) register_names ≡ some r
unfolding names_register
names_register-lookup_str r h = elim (Option-cases (lookup_str (format_uint 10 r) register_names)) [
  | inl absent ↦ let q = rw (absent, names_register) at h in absurd (cc)
  | inr (k, present) ↦
      let same : k ≡ r = (==_iff k r).0 (rw (present, names_register) at h) in
      present ∙ ap some same
]

register_names-found : all_below names_register 32 ≡ true
unfolding all_below names_register register_names format_uint
register_names-found = refl

pub parse_register-register_to_string :
    (r : ℕ) → r < 32 → parse_register (register_to_string r) ≡ ok r
unfolding register_to_string parse_register
parse_register-register_to_string r h =
    rw (names_register-lookup_str r (all_below-lt names_register 32 r register_names-found h)) refl

pub register_token-Reprints : (r : ℕ) → r < 32 → Reprints (register_token r)
unfolding is_plain accepts argument_string register_of signed_constant16_of unsigned_constant16_of
    constant5_of relative_code_pointer_of absolute_code_pointer_of memory_reference_of
    parse_arg_token parse_register_arg_token
register_token-Reprints r h register fit = (
  rw (parse_register-register_to_string r h) refl,
  format_uint-all_of is_plain is_digit-is_plain r,
)
register_token-Reprints r h signed_constant16 fit = absurd (cc)
register_token-Reprints r h unsigned_constant16 fit = absurd (cc)
register_token-Reprints r h constant5 fit = absurd (cc)
register_token-Reprints r h absolute_code_pointer fit = absurd (cc)
register_token-Reprints r h relative_code_pointer fit = absurd (cc)
register_token-Reprints r h memory_address fit = absurd (cc)

constant-read :
    (s : String) (c : ℕ)
    → all_of no_dollar (codes s) ≡ true
    → is_constant_text (codes s) ≡ true
    → parse_constant s ≡ ok c
    → parse_arg_token s ≡ ok (constant_token c)
unfolding parse_arg_token parse_register_arg_token parse_constant_arg_token parse_register
constant-read String.[] c named number read = absurd (cc)
constant-read (String.◌∷◌ d s) c named number read =
    let other : (code d == 0x24) ≡ false = ground (arith, named) in rw (other, number, read) refl

unsigned-read : (n : ℕ) → n < 2 ^ 32 → parse_arg_token (format_uint 10 n) ≡ ok (constant_token n)
unsigned-read n h =
    constant-read (format_uint 10 n) n (format_uint-all_of no_dollar is_digit-no_dollar n)
      (is_constant_text-digits (codes (format_uint 10 n)) (all_of-is_digit n))
      (parse_constant-format_uint n h)

signed-read :
    (w n c : ℕ)
    → parse_constant (format_int w 10 n) ≡ ok c
    → parse_arg_token (format_int w 10 n) ≡ ok (constant_token c)
signed-read w n c read =
    constant-read (format_int w 10 n) c (format_int-all_of no_dollar is_digit-no_dollar refl w n)
      (format_int-is_constant_text w n) read

pub unsigned_plain : (n : ℕ) → all_of is_plain (codes (format_uint 10 n)) ≡ true
unsigned_plain n = format_uint-all_of is_plain is_digit-is_plain n

pub signed_plain : (w n : ℕ) → all_of is_plain (codes (format_int w 10 n)) ≡ true
unfolding is_plain
signed_plain w n = format_int-all_of is_plain is_digit-is_plain refl w n

pub constant_token-Reprints : (c : ℕ) → c < 2 ^ 32 → Reprints (constant_token c)
unfolding accepts argument_string register_of signed_constant16_of unsigned_constant16_of
    constant5_of relative_code_pointer_of absolute_code_pointer_of memory_reference_of
constant_token-Reprints c h register fit = absurd (cc)
constant_token-Reprints c h signed_constant16 fit =
    let same : sext16 (u16 c) ≡ c = ground (arith, fit) in
    (
      signed-read 16 (u16 c) c (parse_constant-format_int16 (u16 c) (omega arith) ∙ ap ok same),
      signed_plain 16 (u16 c),
    )
constant_token-Reprints c h unsigned_constant16 fit =
    let small : c < 2 ^ 16 = ground (arith, fit, bit_and_high 16 16 c, h) in
    let same : u16 c ≡ c = omega (arith, small) in
    (
      unsigned-read (u16 c) (omega arith) ∙ ap (λ m. ok (constant_token m)) same,
      unsigned_plain (u16 c),
    )
constant_token-Reprints c h constant5 fit =
    let same : u8 c ≡ c = ground (arith, fit) in
    (
      unsigned-read (u8 c) (omega arith) ∙ ap (λ m. ok (constant_token m)) same,
      unsigned_plain (u8 c),
    )
constant_token-Reprints c h absolute_code_pointer fit = (unsigned-read c h, unsigned_plain c)
constant_token-Reprints c h relative_code_pointer fit =
    elim (Bool-cases (sext16 (u16 (c >>> 2)) << 2 == bit_and c 0xfffffffc)) [
      | inl near ↦ rw near (signed-read 32 c c (parse_constant-format_int32 c h), signed_plain 32 c)
      | inr far ↦ let q = rw (far, accepts, relative_code_pointer_of) at fit in absurd (cc)
    ]
constant_token-Reprints c h memory_address fit = absurd (cc)
