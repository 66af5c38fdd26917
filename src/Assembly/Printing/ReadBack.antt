-- ===== src/Assembly/Printing/ReadBack.antt =====
-- Numerals read again.
use Prim.Native.Char.{Char, code}
use native.Mathlib.Nat as N
use mips.Prelude.{
  lt→ltb, ℕ, zero, suc, ◌+◌, ◌-◌, ◌*◌, ◌/◌, ◌%◌, ◌^◌, ◌<◌, ◌≤◌, ◌≡◌, ◌⊎◌, refl, sym, ap, ◌∙◌,
  String, List, [], ◌∷◌, some, Bool, true, false, ◌||◌, not, arith, ltb, ◌==◌, inl, inr, Bool-cases,
  all_below, all_below-lt,
}
use mips.Isa.{ok, sext16}
use mips.Assembly.Reading.Numbers.{
  codes, is_digit, digit_value, digits_from, magnitude, signed_part, parse_int, parse_constant,
  constant_of,
}
use mips.Assembly.Reading.Tokens.{all_of}
use mips.Assembly.Printing.Numerals.{digit, digits_onto, format_uint, format_int}

pub digit_value-digit : (d : ℕ) → d < 16 → digit_value (code (digit d)) ≡ d
unfolding digit_value all_below
digit_value-digit d h =
    ground (arith, all_below-lt (λ k. digit_value (code (digit k)) == k) 16 d refl h)

pub lt_or_ge : (a b : ℕ) → (a < b) ⊎ (b ≤ a)
lt_or_ge a b = elim (Bool-cases (ltb a b)) [
  | inl below ↦ inl (ground (arith, below))
  | inr above ↦ inr (ground (arith, above))
]

pub digits_onto-last :
    (room base n : ℕ) (behind : String)
    → n < base
    → digits_onto (suc room) base n behind ≡ String.◌∷◌ (digit n) behind
unfolding digits_onto
digits_onto-last room base n behind h = ground arith

pub digits_onto-more :
    (room base n : ℕ) (behind : String)
    → base ≤ n
    → digits_onto (suc room) base n behind
      ≡ digits_onto room base (n / base) (String.◌∷◌ (digit (n % base)) behind)
unfolding digits_onto
digits_onto-more room base n behind h = ground arith

pub all_of-digits_onto :
    (p : ℕ → Bool) (room base n : ℕ) (behind : String)
    → 0 < base
    → ((d : ℕ) → d < base → p (code (digit d)) ≡ true)
    → all_of p (codes behind) ≡ true
    → all_of p (codes (digits_onto room base n behind)) ≡ true
unfolding digits_onto
all_of-digits_onto p zero base n behind pos each rest = rest
all_of-digits_onto p (suc room) base n behind pos each rest = elim (lt_or_ge n base) [
  | inl last ↦ rw (digits_onto-last room base n behind last, each n last) rest
  | inr more ↦ rw (digits_onto-more room base n behind more) (
      all_of-digits_onto p room base (n / base) (String.◌∷◌ (digit (n % base)) behind) pos each
        (rw (each (n % base) (N.mod-lt n pos)) rest))
]

digits_from-digit :
    (base acc d : ℕ) (cs : List ℕ)
    → base ≤ 16
    → d < base
    → digits_from base acc (code (digit d) ∷ cs) ≡ digits_from base (acc * base + d) cs
unfolding digits_from
digits_from-digit base acc d cs most h =
    rw (digit_value-digit d (omega (arith, h, most)), lt→ltb d base h) refl

pub digits_from-digits_onto :
    (room base n : ℕ) (behind : String)
    → 2 ≤ base
    → base ≤ 16
    → n < base ^ room
    → digits_from base 0 (codes (digits_onto room base n behind))
      ≡ digits_from base n (codes behind)
unfolding digits_onto
digits_from-digits_onto zero base n behind two most small =
    let none_left : 0 ≡ n = omega (arith, rw N.pow-zero at small) in
    ap (λ m. digits_from base m (codes behind)) none_left
digits_from-digits_onto (suc room) base n behind two most small = elim (lt_or_ge n base) [
  | inl last ↦ rw (digits_onto-last room base n behind last) (
      digits_from-digit base 0 n (codes behind) most last
      ∙ ap (λ m. digits_from base (m + n) (codes behind)) (N.zero-mul base)
      ∙ ap (λ m. digits_from base m (codes behind)) (omega arith))
  | inr more ↦
      let below : n / base < base ^ room =
        (N.div-lt_iff_lt-mul (omega (arith, two))).1 (rw N.pow-suc at small) in
      rw (digits_onto-more room base n behind more) (
        digits_from-digits_onto room base (n / base) (String.◌∷◌ (digit (n % base)) behind) two most
          below
        ∙ digits_from-digit base (n / base) (n % base) (codes behind) most
            (N.mod-lt n (omega (arith, two)))
        ∙ ap (λ m. digits_from base m (codes behind)) (N.div-add-mod' n base))
]

-- A numeral that is not 0 begins with another digit.
digits_onto-head :
    (room n : ℕ) (behind : String)
    → 0 < n
    → n < 10 ^ room
    → (c : Char) × (s : String) × (digits_onto room 10 n behind ≡ String.◌∷◌ c s)
      × ((code c == 0x30) ≡ false)
unfolding digits_onto all_below
digits_onto-head zero n behind pos small = absurd (omega (arith, pos, rw N.pow-zero at small))
digits_onto-head (suc room) n behind pos small = elim (lt_or_ge n 10) [
  | inl last ↦ (
    digit n,
    behind,
    digits_onto-last room 10 n behind last,
    ground (arith, pos, all_below-lt (λ k. k == 0 || not (code (digit k) == 0x30)) 10 n refl last),
  )
  | inr more ↦
      let (c, s, same, nonzero) =
        digits_onto-head room (n / 10) (String.◌∷◌ (digit (n % 10)) behind) (omega (arith, more))
          (omega (arith, rw N.pow-suc at small)) in
      (c, s, digits_onto-more room 10 n behind more ∙ same, nonzero)
]

magnitude-nonzero :
    (c : ℕ) (cs : List ℕ) → (c == 0x30) ≡ false → magnitude (c ∷ cs) ≡ digits_from 10 0 (c ∷ cs)
unfolding magnitude
magnitude-nonzero c [] h = refl
magnitude-nonzero c (d ∷ []) h = rw h refl
magnitude-nonzero c (d ∷ e ∷ cs) h = rw h refl

pub all_of-is_digit : (n : ℕ) → all_of is_digit (codes (format_uint 10 n)) ≡ true
unfolding format_uint all_below is_digit
all_of-is_digit n =
    all_of-digits_onto is_digit 64 10 n String.[] (omega arith)
      (λ d h. all_below-lt (λ k. is_digit (code (digit k))) 10 d refl h) refl

magnitude-format_uint : (n : ℕ) → n < 2 ^ 63 → magnitude (codes (format_uint 10 n)) ≡ some n
unfolding format_uint magnitude
magnitude-format_uint zero h = refl
magnitude-format_uint (suc m) h =
    let (c, s, same, nonzero) =
      digits_onto-head 64 (suc m) String.[] (omega arith) (omega (arith, h)) in
    ap (λ t. magnitude (codes t)) same
    ∙ magnitude-nonzero (code c) (codes s) nonzero
    ∙ ap (λ t. digits_from 10 0 (codes t)) (sym same)
    ∙ digits_from-digits_onto 64 10 (suc m) String.[] (omega arith) (omega arith) (omega (arith, h))

signed_part-digits : (cs : List ℕ) → all_of is_digit cs ≡ true → signed_part cs ≡ (false, cs)
unfolding signed_part is_digit
signed_part-digits [] h = refl
signed_part-digits (c ∷ cs) h = ground (arith, h)

parse_int-format_uint : (n : ℕ) → n < 2 ^ 63 → parse_int (format_uint 10 n) ≡ some (false, n)
unfolding parse_int
parse_int-format_uint n h =
    rw
      (signed_part-digits (codes (format_uint 10 n)) (all_of-is_digit n), magnitude-format_uint n h)
      (ground (arith, h))

parse_int-negative :
    (n : ℕ) → n < 2 ^ 63 → parse_int (String.◌∷◌ "-" (format_uint 10 n)) ≡ some (true, n)
unfolding parse_int signed_part
parse_int-negative n h = rw (magnitude-format_uint n h) (ground (arith, h))

pub parse_constant-format_uint : (n : ℕ) → n < 2 ^ 32 → parse_constant (format_uint 10 n) ≡ ok n
unfolding parse_constant constant_of
parse_constant-format_uint n h = rw (parse_int-format_uint n (omega (arith, h))) (ground (arith, h))

parse_constant-negative :
    (n : ℕ)
    → 0 < n
    → n < 2 ^ 32
    → parse_constant (String.◌∷◌ "-" (format_uint 10 n)) ≡ ok (2 ^ 32 - n)
unfolding parse_constant constant_of
parse_constant-negative n pos h =
    rw (parse_int-negative n (omega (arith, h))) (ap ok (ground (arith, pos, h)))

pub parse_constant-format_int16 :
    (c : ℕ) → c < 2 ^ 16 → parse_constant (format_int 16 10 c) ≡ ok (sext16 c)
unfolding format_int
parse_constant-format_int16 c h = elim (Bool-cases (ltb c (2 ^ 15))) [
  | inl positive ↦ rw (positive) (parse_constant-format_uint c (omega (arith, h)))
  | inr negative ↦ rw (negative) (
      parse_constant-negative (2 ^ 16 - c) (omega (arith, h)) (omega arith)
      ∙ ap ok (ground (arith, h, negative)))
]

pub parse_constant-format_int32 : (c : ℕ) → c < 2 ^ 32 → parse_constant (format_int 32 10 c) ≡ ok c
unfolding format_int
parse_constant-format_int32 c h = elim (Bool-cases (ltb c (2 ^ 31))) [
  | inl positive ↦ rw (positive) (parse_constant-format_uint c h)
  | inr negative ↦ rw (negative) (
      parse_constant-negative (2 ^ 32 - c) (omega (arith, h)) (ground (arith, negative, h))
      ∙ ap ok (ground (arith, h, negative)))
]
