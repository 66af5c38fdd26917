-- ===== src/Coding/RoundTrip/Layout.antt =====
-- The fields of a word, as arithmetic.
use mips.Isa.{u32, ◌<<◌}
use mips.Prelude.{bit_or, ap, ◌∙◌, ℕ, ◌+◌, ◌*◌, ◌/◌, ◌^◌, ◌<◌, ◌≡◌, arith}
use mips.Bits.Fields.{bit_and_mask, bit_or_sum, bit_or_sum3, bit_or_sum4, bit_or_again}
use mips.Coding.Decode.{Fields, fields}

-- `f` holds the fields of the word `w`.
pub record FieldsOf (w : ℕ) (f : Fields) : Type 0 where
  pub opcode-lt : f.opcode < 2 ^ 6
  pub register_s-lt : f.register_s < 2 ^ 5
  pub register_t-lt : f.register_t < 2 ^ 5
  pub register_d-lt : f.register_d < 2 ^ 5
  pub shift_amount-lt : f.shift_amount < 2 ^ 5
  pub func_field-lt : f.func_field < 2 ^ 6
  pub immediate-lt : f.immediate < 2 ^ 16
  pub low_half : f.immediate ≡ f.register_d * 2 ^ 11 + f.shift_amount * 2 ^ 6 + f.func_field
  pub whole : w ≡ f.opcode * 2 ^ 26 + f.register_s * 2 ^ 21 + f.register_t * 2 ^ 16 + f.immediate

pub fields-FieldsOf : (w : ℕ) → w < 2 ^ 32 → FieldsOf w (fields w)
unfolding fields
fields-FieldsOf w h = omega (
  arith,
  bit_and_mask 6 (w / 2 ^ 26),
  bit_and_mask 5 (w / 2 ^ 21),
  bit_and_mask 5 (w / 2 ^ 16),
  bit_and_mask 5 (w / 2 ^ 11),
  bit_and_mask 5 (w / 2 ^ 6),
  bit_and_mask 6 w,
  bit_and_mask 16 w,
)

-- An opcode, two registers and sixteen bits.
pub immediate_layout :
    (opcode s t low : ℕ)
    → opcode < 2 ^ 6
    → s < 2 ^ 5
    → t < 2 ^ 5
    → low < 2 ^ 16
    → bit_or (bit_or (bit_or (opcode << 26) (u32 s << 21)) (u32 t << 16)) low
      ≡ opcode * 2 ^ 26 + s * 2 ^ 21 + t * 2 ^ 16 + low
immediate_layout opcode s t low ho hs ht hl =
    bit_or_sum4 26 21 16 (opcode << 26) (u32 s << 21) (u32 t << 16) low (omega arith) (omega arith)
      (omega arith) (omega arith) (omega arith) (omega arith)
    ∙ omega arith

-- The constant is there twice: as a signed and as an unsigned one.
pub immediate_layout_twice :
    (opcode s t low : ℕ)
    → opcode < 2 ^ 6
    → s < 2 ^ 5
    → t < 2 ^ 5
    → low < 2 ^ 16
    → bit_or (bit_or (bit_or (bit_or (opcode << 26) (u32 s << 21)) (u32 t << 16)) low) low
      ≡ opcode * 2 ^ 26 + s * 2 ^ 21 + t * 2 ^ 16 + low
immediate_layout_twice opcode s t low ho hs ht hl =
    ap (λ (x : ℕ). bit_or x low) (immediate_layout opcode s t low ho hs ht hl)
    ∙ bit_or_again 16 (opcode * 2 ^ 26 + s * 2 ^ 21 + t * 2 ^ 16) low (omega arith) hl

pub lui_layout :
    (opcode t low : ℕ)
    → opcode < 2 ^ 6
    → t < 2 ^ 5
    → low < 2 ^ 16
    → bit_or (bit_or (opcode << 26) (u32 t << 16)) low ≡ opcode * 2 ^ 26 + t * 2 ^ 16 + low
lui_layout opcode t low ho ht hl =
    bit_or_sum3 26 16 (opcode << 26) (u32 t << 16) low (omega arith) (omega arith) (omega arith)
      (omega arith)
    ∙ omega arith

pub jump_layout :
    (opcode target : ℕ)
    → opcode < 2 ^ 6
    → target < 2 ^ 26
    → bit_or (opcode << 26) target ≡ opcode * 2 ^ 26 + target
jump_layout opcode target ho ht = bit_or_sum 26 (opcode << 26) target (omega arith) ht ∙ omega arith

-- Two registers, a shift amount and a function.
pub shift_layout :
    (t d amount func : ℕ)
    → t < 2 ^ 5
    → d < 2 ^ 5
    → amount < 2 ^ 5
    → func < 2 ^ 6
    → bit_or (bit_or (bit_or (u32 t << 16) (u32 d << 11)) (amount << 6)) func
      ≡ t * 2 ^ 16 + d * 2 ^ 11 + amount * 2 ^ 6 + func
shift_layout t d amount func ht hd ha hf =
    bit_or_sum4 16 11 6 (u32 t << 16) (u32 d << 11) (amount << 6) func (omega arith) (omega arith)
      (omega arith) (omega arith) (omega arith) (omega arith)
    ∙ omega arith

-- Three registers and a function.
pub register_layout :
    (s t d func : ℕ)
    → s < 2 ^ 5
    → t < 2 ^ 5
    → d < 2 ^ 5
    → func < 2 ^ 6
    → bit_or (bit_or (bit_or (u32 s << 21) (u32 t << 16)) (u32 d << 11)) func
      ≡ s * 2 ^ 21 + t * 2 ^ 16 + d * 2 ^ 11 + func
register_layout s t d func hs ht hd hf =
    bit_or_sum4 21 16 11 (u32 s << 21) (u32 t << 16) (u32 d << 11) func (omega arith) (omega arith)
      (omega arith) (omega arith) (omega arith) (omega arith)
    ∙ omega arith

pub jr_layout :
    (s func : ℕ) → s < 2 ^ 5 → func < 2 ^ 6 → bit_or (u32 s << 21) func ≡ s * 2 ^ 21 + func
jr_layout s func hs hf = bit_or_sum 21 (u32 s << 21) func (omega arith) (omega arith) ∙ omega arith

pub jalr_layout :
    (s d func : ℕ)
    → s < 2 ^ 5
    → d < 2 ^ 5
    → func < 2 ^ 6
    → bit_or (bit_or (u32 s << 21) (u32 d << 11)) func ≡ s * 2 ^ 21 + d * 2 ^ 11 + func
jalr_layout s d func hs hd hf =
    bit_or_sum3 21 11 (u32 s << 21) (u32 d << 11) func (omega arith) (omega arith) (omega arith)
      (omega arith)
    ∙ omega arith
