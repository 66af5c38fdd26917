-- ===== src/Isa/Word.antt =====
-- Go's fixed-width integers. An unsigned number is a natural number below 2 ^ w. An `int16` is kept
-- as its bit pattern, below 2 ^ 16; an `int32` is the integer that it stands for.
use mips.Prelude.{ℕ, ◌+◌, ◌-◌, ◌*◌, ◌/◌, ◌%◌, ◌^◌, ◌<◌, ◌≡◌, arith, ltb, if◌then◌else◌}
use mips.Prelude.Int.{ℤ, pos, negsuc}

-- uint32(n), uint16(n), byte(n)
abbrev pub u32 : ℕ → ℕ
u32 n = n % 2 ^ 32

abbrev pub u16 : ℕ → ℕ
u16 n = n % 2 ^ 16

abbrev pub u8 : ℕ → ℕ
u8 n = n % 2 ^ 8

-- a + b and a - b on uint32
abbrev pub add32 : ℕ → ℕ → ℕ
add32 a b = u32 (a + b)

abbrev pub sub32 : ℕ → ℕ → ℕ
sub32 a b = u32 (a + 2 ^ 32 - b)

-- x << k on uint32, and x >> k on an unsigned number
infixl 75 ◌<<◌ ◌>>>◌
abbrev pub ◌<<◌ : ℕ → ℕ → ℕ
x << k = u32 (x * 2 ^ k)

abbrev pub ◌>>>◌ : ℕ → ℕ → ℕ
x >>> k = x / 2 ^ k

-- ^x on uint32
abbrev pub not32 : ℕ → ℕ
not32 x = 2 ^ 32 - 1 - x

-- uint32(c) of an int16, and uint32(int8(b)) of a byte: the sign is extended
abbrev pub sext16 : ℕ → ℕ
sext16 c = if ltb c (2 ^ 15) then c else c + (2 ^ 32 - 2 ^ 16)

abbrev pub sext8 : ℕ → ℕ
sext8 b = if ltb b (2 ^ 7) then b else b + (2 ^ 32 - 2 ^ 8)

-- int32(w) of a uint32, and uint32(z) of an int32
abbrev pub int32 : ℕ → ℤ
int32 w = if ltb w (2 ^ 31) then pos w else negsuc (2 ^ 32 - 1 - w)

abbrev pub of_int32 : ℤ → ℕ
of_int32 (pos n) = n % 2 ^ 32
of_int32 (negsuc n) = 2 ^ 32 - 1 - n % 2 ^ 32

-- int16(z) of an int32, as a bit pattern
abbrev pub int16 : ℤ → ℕ
int16 z = u16 (of_int32 z)

pub of_int32-int32 : (w : ℕ) → w < 2 ^ 32 → of_int32 (int32 w) ≡ w
of_int32-int32 w h = ground arith

pub sext16-lt : (c : ℕ) → c < 2 ^ 16 → sext16 c < 2 ^ 32
sext16-lt c h = ground arith

pub sext8-lt : (b : ℕ) → b < 2 ^ 8 → sext8 b < 2 ^ 32
sext8-lt b h = ground arith
