-- ===== src/Formatting/Padding.antt =====
-- Padded numerals read again.
use native.Mathlib.Nat as N
use mips.Prelude.{
  ℕ, zero, suc, ◌+◌, ◌/◌, ◌%◌, ◌^◌, ◌<◌, ◌≤◌, ◌≡◌, refl, ◌∙◌, String, List, ◌∷◌, false, some, arith,
  ltb, inl, inr, Bool-cases,
}
use mips.Assembly.Reading.Numbers.{codes, digits_from, magnitude, signed_part, parse_int}
use mips.Assembly.Printing.Numerals.{◌+++◌, digit, digits_onto, format_uint}
use mips.Assembly.Printing.ReadBack.{
  digits_from-digits_onto, digits_onto-last, digits_onto-more, lt_or_ge,
}
use mips.Formatting.{text_length, pad, eight_digit_hex, format32_bit_hex, format8_bit_hex}

-- As many digits as the number needs.
digits_onto-length :
    (k room base n : ℕ) (behind : String)
    → 2 ≤ base
    → n < base ^ suc k
    → k < room
    → text_length (digits_onto room base n behind) ≤ suc k + text_length behind
digits_onto-length k zero base n behind two small fits = absurd (omega (arith, fits))
digits_onto-length zero (suc room) base n behind two small fits =
    let below : n < base = omega (arith, rw N.pow-zero at (rw (N.pow-suc base 0) at small)) in
    rw (digits_onto-last room base n behind below) (omega arith)
digits_onto-length (suc k) (suc room) base n behind two small fits = elim (lt_or_ge n base) [
  | inl last ↦ rw (digits_onto-last room base n behind last) (omega arith)
  | inr more ↦
      let below : n / base < base ^ suc k =
        (N.div-lt_iff_lt-mul (omega (arith, two))).1 (rw (N.pow-suc base (suc k)) at small) in
      let rest =
        digits_onto-length k room base (n / base) (String.◌∷◌ (digit (n % base)) behind) two below
          (omega (arith, fits)) in
      rw (digits_onto-more room base n behind more) (omega (arith, rest))
]

digits_from-zero : (cs : List ℕ) → digits_from 16 0 (0x30 ∷ cs) ≡ digits_from 16 0 cs
unfolding digits_from
digits_from-zero cs = refl

pad-digits_from :
    (room width : ℕ) (s : String)
    → digits_from 16 0 (codes (pad room width s)) ≡ digits_from 16 0 (codes s)
unfolding pad
pad-digits_from zero width s = refl
pad-digits_from (suc room) width s = elim (Bool-cases (ltb (text_length s) width)) [
  | inl short ↦
      rw short (pad-digits_from room width (String.◌∷◌ "0" s) ∙ digits_from-zero (codes s))
  | inr long ↦ rw long refl
]

pad-length :
    (room width : ℕ) (s : String)
    → text_length s ≤ width
    → width ≤ room + text_length s
    → text_length (pad room width s) ≡ width
unfolding pad
pad-length zero width s most least = omega (arith, most, least)
pad-length (suc room) width s most least = elim (Bool-cases (ltb (text_length s) width)) [
  | inl short ↦
      rw short
        (pad-length room width (String.◌∷◌ "0" s) (ground (arith, short)) (omega (arith, least)))
  | inr long ↦ rw long (ground (arith, long, most))
]

pub pad_hex-length :
    (k n : ℕ)
    → k < 64
    → n < 16 ^ suc k
    → text_length (pad (suc k) (suc k) (format_uint 16 n)) ≡ suc k
unfolding format_uint
pad_hex-length k n fits small =
    let most = digits_onto-length k 64 16 n String.[] (omega arith) small fits in
    pad-length (suc k) (suc k) (digits_onto 64 16 n String.[]) (omega (arith, most)) (omega arith)

pub pad_hex-digits_from :
    (room width n : ℕ)
    → n < 2 ^ 32
    → digits_from 16 0 (codes (pad room width (format_uint 16 n))) ≡ some n
unfolding format_uint digits_from
pad_hex-digits_from room width n small =
    pad-digits_from room width (digits_onto 64 16 n String.[])
    ∙ digits_from-digits_onto 64 16 n String.[] (omega arith) (omega arith) (omega (arith, small))

-- a text behind `0x`
parse_int-hex :
    (s : String) (n : ℕ)
    → 0 < text_length s
    → digits_from 16 0 (codes s) ≡ some n
    → n < 2 ^ 63
    → parse_int (String.◌∷◌ "0" (String.◌∷◌ "x" s)) ≡ some (false, n)
unfolding parse_int signed_part magnitude
parse_int-hex String.[] n filled read small = absurd (omega (arith, filled))
parse_int-hex (String.◌∷◌ c s) n filled read small = rw read (ground (arith, small))

-- A register is shown as `0x` and eight digits, by the emulator and on the page, and Go's
-- `ParseInt` reads either text as the number; a byte of memory is shown as two digits that are its
-- value in base 16.
pub hex_texts :
    (n b : ℕ)
    → n < 2 ^ 32
    → b < 2 ^ 8
    → (text_length (eight_digit_hex n) ≡ 10)
      × (parse_int (eight_digit_hex n) ≡ some (false, n))
      × (text_length (format32_bit_hex n) ≡ 10)
      × (parse_int (format32_bit_hex n) ≡ some (false, n))
      × (text_length (format8_bit_hex b) ≡ 2)
      × (digits_from 16 0 (codes (format8_bit_hex b)) ≡ some b)
unfolding eight_digit_hex format32_bit_hex format8_bit_hex ◌+++◌
hex_texts n b small byte =
    let wide : text_length (pad 8 8 (format_uint 16 n)) ≡ 8 =
      pad_hex-length 7 n (omega arith) small in
    let read =
      parse_int-hex (pad 8 8 (format_uint 16 n)) n (omega (arith, wide))
        (pad_hex-digits_from 8 8 n small) (omega (arith, small)) in
    (
      omega (arith, wide),
      read,
      omega (arith, wide),
      read,
      pad_hex-length 1 b (omega arith) byte,
      pad_hex-digits_from 2 2 b (omega (arith, byte)),
    )
