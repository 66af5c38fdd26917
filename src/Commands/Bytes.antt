-- ===== src/Commands/Bytes.antt =====
-- The words of a file and their bytes, in both byte orders.
use mips.Prelude.{
  ℕ, ◌+◌, ◌*◌, ◌%◌, ◌^◌, ◌<◌, ◌≡◌, refl, ap, ◌∙◌, List, [], ◌∷◌, Bool, true, false, arith, All,
  length, map, bit_or,
}
use mips.Bits.Fields.{bit_or_sum, bit_or_sum4, bit_or_comm}
use mips.Isa.{u8, ◌<<◌, ◌>>>◌}
use mips.Coding.Decode.{decode_instruction}
use mips.Commands.Assemble.{word_bytes}
use mips.Commands.Disassemble.{word_of_bytes, instructions_in}
use mips.Commands.Writing.{all_bytes}

-- the four bytes in the order of their weight
module _ (b0 b1 b2 b3 : ℕ) (h0 : b0 < 2 ^ 8) (h1 : b1 < 2 ^ 8) (h2 : b2 < 2 ^ 8)
    (h3 : b3 < 2 ^ 8) where
  abbrev value : ℕ
  value = b3 * 2 ^ 24 + b2 * 2 ^ 16 + b1 * 2 ^ 8 + b0

  falling : bit_or (bit_or (bit_or (b3 << 24) (b2 << 16)) (b1 << 8)) b0 ≡ value
  falling =
      bit_or_sum4 24 16 8 (b3 << 24) (b2 << 16) (b1 << 8) b0 (omega arith) (omega arith)
        (omega arith) (omega arith) (omega arith) (omega arith)
      ∙ omega arith

  rising_two : bit_or b0 (b1 << 8) ≡ b1 * 2 ^ 8 + b0
  rising_two = bit_or_comm b0 (b1 << 8) ∙ bit_or_sum 8 (b1 << 8) b0 (omega arith) h0 ∙ omega arith

  rising_three : bit_or (bit_or b0 (b1 << 8)) (b2 << 16) ≡ b2 * 2 ^ 16 + b1 * 2 ^ 8 + b0
  rising_three =
      ap (λ s. bit_or s (b2 << 16)) rising_two
      ∙ bit_or_comm (b1 * 2 ^ 8 + b0) (b2 << 16)
      ∙ bit_or_sum 16 (b2 << 16) (b1 * 2 ^ 8 + b0) (omega arith) (omega arith)
      ∙ omega arith

  rising : bit_or (bit_or (bit_or b0 (b1 << 8)) (b2 << 16)) (b3 << 24) ≡ value
  rising =
      ap (λ s. bit_or s (b3 << 24)) rising_three
      ∙ bit_or_comm (b2 * 2 ^ 16 + b1 * 2 ^ 8 + b0) (b3 << 24)
      ∙ bit_or_sum 24 (b3 << 24) (b2 * 2 ^ 16 + b1 * 2 ^ 8 + b0) (omega arith) (omega arith)
      ∙ omega arith

  value_bytes :
      (u8 value ≡ b0)
      × (u8 (value >>> 8) ≡ b1)
      × (u8 (value >>> 16) ≡ b2)
      × (u8 (value >>> 24) ≡ b3)
  value_bytes = (omega arith, omega arith, omega arith, omega arith)

word_bytes-word_of_bytes :
    (little_endian : Bool) (b0 b1 b2 b3 : ℕ)
    → b0 < 2 ^ 8
    → b1 < 2 ^ 8
    → b2 < 2 ^ 8
    → b3 < 2 ^ 8
    → (word_of_bytes little_endian b0 b1 b2 b3 < 2 ^ 32)
      × (word_bytes little_endian (word_of_bytes little_endian b0 b1 b2 b3)
          ≡ b0 ∷ b1 ∷ b2 ∷ b3 ∷ [])
unfolding word_bytes word_of_bytes
word_bytes-word_of_bytes true b0 b1 b2 b3 h0 h1 h2 h3 =
    let sum = rising b0 b1 b2 b3 h0 h1 h2 h3 in
    let (p0, p1, p2, p3) = value_bytes b0 b1 b2 b3 h0 h1 h2 h3 in
    (omega (arith, sum), rw sum (rw p0 (rw p1 (rw p2 (rw p3 refl)))))
word_bytes-word_of_bytes false b0 b1 b2 b3 h0 h1 h2 h3 =
    let sum = falling b3 b2 b1 b0 h3 h2 h1 h0 in
    let (p0, p1, p2, p3) = value_bytes b3 b2 b1 b0 h3 h2 h1 h0 in
    (omega (arith, sum), rw sum (rw p0 (rw p1 (rw p2 (rw p3 refl)))))

-- The words of a file: 32 bits each, decoded one by one, and with the file's bytes.
pub record WordsOf (little_endian : Bool) (binary ws : List ℕ) : Type 0 where
  pub small : All (λ w. w < 2 ^ 32) ws
  pub decoded : instructions_in little_endian binary ≡ map decode_instruction ws
  pub same_bytes : all_bytes little_endian ws ≡ binary
  pub size : 4 * length ws ≡ length binary

pub words_of :
    (little_endian : Bool) (binary : List ℕ)
    → All (λ b. b < 2 ^ 8) binary
    → length binary % 4 ≡ 0
    → (ws : List ℕ) × WordsOf little_endian binary ws
unfolding instructions_in
words_of little_endian [] small whole =
    ([], record { small = tt; decoded = refl; same_bytes = refl; size = refl })
words_of little_endian (b0 ∷ []) small whole = absurd (omega (arith, whole))
words_of little_endian (b0 ∷ b1 ∷ []) small whole = absurd (omega (arith, whole))
words_of little_endian (b0 ∷ b1 ∷ b2 ∷ []) small whole = absurd (omega (arith, whole))
words_of little_endian (b0 ∷ b1 ∷ b2 ∷ b3 ∷ rest) (h0, (h1, (h2, (h3, later)))) whole =
    let (ws, others) = words_of little_endian rest later (omega (arith, whole)) in
    let (fits, same) = word_bytes-word_of_bytes little_endian b0 b1 b2 b3 h0 h1 h2 h3 in
    (
      word_of_bytes little_endian b0 b1 b2 b3 ∷ ws,
      record {
        small = (fits, others.small);
        decoded =
            ap (λ l. decode_instruction (word_of_bytes little_endian b0 b1 b2 b3) ∷ l)
              others.decoded;
        same_bytes = rw same (rw others.same_bytes refl);
        size = omega (arith, others.size);
      },
    )
