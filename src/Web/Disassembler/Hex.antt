-- ===== src/Web/Disassembler/Hex.antt =====
-- Eight digits are decoded to the bytes of a word.
use mathlib.Core.Option.{some-injective}
use mips.Prelude.{
  ℕ, suc, ◌+◌, ◌*◌, ◌^◌, ◌<◌, ◌≡◌, refl, ap, ◌∙◌, List, [], ◌∷◌, ◌++◌, true, false, some, arith,
  ltb, inl, inr, Bool-cases, length,
}
use mips.Bits.Fields.{bit_or_sum4}
use mips.Isa.{◌<<◌}
use mips.Assembly.Reading.Numbers.{digit_value, digits_from}
use mips.Commands.Disassemble.{word_of_bytes}
use mips.Web.Disassembler.{decode_hex, cons_byte}

-- a digit more
digits_from-some :
    (acc c w : ℕ) (cs : List ℕ)
    → digits_from 16 acc (c ∷ cs) ≡ some w
    → (digit_value c < 16) × (digits_from 16 (acc * 16 + digit_value c) cs ≡ some w)
unfolding digits_from
digits_from-some acc c w cs h = elim (Bool-cases (ltb (digit_value c) 16)) [
  | inl below ↦ (ground (arith, below), rw below at h)
  | inr over ↦ let q = rw over at h in absurd (cc)
]

-- Two digits are a byte.
record Byte (acc k w : ℕ) (cs : List ℕ) : Type 0 where
  byte : ℕ
  rest : List ℕ
  byte-lt : byte < 2 ^ 8
  size : length rest ≡ k
  read : digits_from 16 (acc * 256 + byte) rest ≡ some w
  decoded :
      (more ds : List ℕ)
      → decode_hex (rest ++ more) ≡ some ds
      → decode_hex (cs ++ more) ≡ some (byte ∷ ds)

two_digits :
    (acc k w : ℕ) (cs : List ℕ)
    → length cs ≡ suc (suc k)
    → digits_from 16 acc cs ≡ some w
    → Byte acc k w cs
unfolding decode_hex
two_digits acc k w [] size read = absurd (omega (arith, size))
two_digits acc k w (c ∷ []) size read = absurd (omega (arith, size))
two_digits acc k w (c ∷ d ∷ cs) size read =
    let (high-lt, next) = digits_from-some acc c w (d ∷ cs) read in
    let (low-lt, last) = digits_from-some (acc * 16 + digit_value c) d w cs next in
    let high = digit_value c in
    let low = digit_value d in
    let both : ((acc * 16 + high) * 16 + low) ≡ (acc * 256 + (high * 16 + low)) = omega arith in
    let is_high : ltb high 16 ≡ true = ground (arith, high-lt) in
    let is_low : ltb low 16 ≡ true = ground (arith, low-lt) in
    record {
      byte = high * 16 + low;
      rest = cs;
      byte-lt = omega (arith, high-lt, low-lt);
      size = omega (arith, size);
      read = rw both at last;
      decoded = λ more ds h. ap (cons_byte high low) h ∙ ground (arith, high-lt, low-lt);
    }

-- the bytes of a word's text
pub record Bytes (w : ℕ) (cs : List ℕ) : Type 0 where
  pub b0 : ℕ
  pub b1 : ℕ
  pub b2 : ℕ
  pub b3 : ℕ
  pub word : word_of_bytes false b0 b1 b2 b3 ≡ w
  pub decoded :
      (more ds : List ℕ)
      → decode_hex more ≡ some ds
      → decode_hex (cs ++ more) ≡ some (b0 ∷ b1 ∷ b2 ∷ b3 ∷ ds)

no_digits :
    (n w : ℕ) (cs : List ℕ) → length cs ≡ 0 → digits_from 16 n cs ≡ some w → (n ≡ w) × (cs ≡ [])
unfolding digits_from
no_digits n w [] size read = (some-injective n w read, refl)
no_digits n w (c ∷ cs) size read = absurd (omega (arith, size))

word_of_bytes-sum :
    (b0 b1 b2 b3 : ℕ)
    → b0 < 2 ^ 8
    → b1 < 2 ^ 8
    → b2 < 2 ^ 8
    → b3 < 2 ^ 8
    → word_of_bytes false b0 b1 b2 b3 ≡ ((b0 * 256 + b1) * 256 + b2) * 256 + b3
unfolding word_of_bytes
word_of_bytes-sum b0 b1 b2 b3 h0 h1 h2 h3 =
    let whole =
      bit_or_sum4 24 16 8 (b0 << 24) (b1 << 16) (b2 << 8) b3 (omega arith) (omega (arith, h1))
        (omega arith) (omega (arith, h2)) (omega arith) h3 in
    whole ∙ omega (arith, h0, h1, h2)

pub eight_digits : (w : ℕ) (cs : List ℕ) → length cs ≡ 8 → digits_from 16 0 cs ≡ some w → Bytes w cs
unfolding decode_hex
eight_digits w cs size read =
    let p0 = two_digits 0 6 w cs size read in
    let p1 = two_digits (0 * 256 + p0.byte) 4 w p0.rest p0.size p0.read in
    let p2 = two_digits ((0 * 256 + p0.byte) * 256 + p1.byte) 2 w p1.rest p1.size p1.read in
    let n2 = ((0 * 256 + p0.byte) * 256 + p1.byte) * 256 + p2.byte in
    let p3 = two_digits n2 0 w p2.rest p2.size p2.read in
    let (total, ended) = no_digits (n2 * 256 + p3.byte) w p3.rest p3.size p3.read in
    record {
      b0 = p0.byte;
      b1 = p1.byte;
      b2 = p2.byte;
      b3 = p3.byte;
      word =
          word_of_bytes-sum p0.byte p1.byte p2.byte p3.byte p0.byte-lt p1.byte-lt p2.byte-lt
            p3.byte-lt
          ∙ omega (arith, total);
      decoded = λ more ds h. p0.decoded more (p1.byte ∷ p2.byte ∷ p3.byte ∷ ds) (
          p1.decoded more (p2.byte ∷ p3.byte ∷ ds) (
            p2.decoded more (p3.byte ∷ ds)
              (p3.decoded more ds (ap (λ l. decode_hex (l ++ more)) ended ∙ h))));
    }
