-- ===== src/Assembly/Reading/Numbers.antt =====
-- `parseConstant` over `strconv.ParseInt(s, 0, 64)`. The strings that reach it hold a sign, digits
-- and a `0x`, or a parenthesis, which is no digit: the other prefixes and the underscores of
-- `ParseInt` do not occur.
use Prim.Native.Char.{code}
use mips.Prelude.{
  ℕ, ◌+◌, ◌-◌, ◌*◌, ◌^◌, ◌%◌, ◌<◌, ◌≡◌, String, List, [], ◌∷◌, Option, none, some, Bool, true,
  false, arith, ◌&&◌, ◌||◌, ltb, leb, ◌==◌, if◌then◌else◌, inl, inr, Option-cases,
}
use mips.Isa.{Result, ok, err, invalid_number, ok-injective}

abbrev pub codes : String → List ℕ
codes String.[] = []
codes (String.◌∷◌ c s) = code c ∷ codes s

unfoldable pub is_digit : ℕ → Bool
is_digit c = leb 0x30 c && leb c 0x39

-- the value of a digit, in any base up to 16; 16 for what is no digit
unfoldable pub digit_value : ℕ → ℕ
unfolding is_digit
digit_value c =
    if is_digit c
    then c - 0x30
    else if leb 0x61 c && leb c 0x66
    then c - 0x61 + 10
    else if leb 0x41 c && leb c 0x46
    then c - 0x41 + 10
    else 16

unfoldable pub digits_from : ℕ → ℕ → List ℕ → Option ℕ
unfolding digit_value
digits_from base acc [] = some acc
digits_from base acc (c ∷ cs) =
    let rest = digits_from base (acc * base + digit_value c) cs in
    if ltb (digit_value c) base then rest else none

-- the base by the prefix: `0x`, `0`, or none
unfoldable pub magnitude : List ℕ → Option ℕ
unfolding digits_from
magnitude [] = none
magnitude (c ∷ []) = digits_from 10 0 (c ∷ [])
magnitude (c ∷ d ∷ []) =
    if c == 0x30 then digits_from 8 0 (d ∷ []) else digits_from 10 0 (c ∷ d ∷ [])
magnitude (c ∷ d ∷ e ∷ cs) =
    if c == 0x30
    then (if d == 0x78 || d == 0x58
        then digits_from 16 0 (e ∷ cs)
        else digits_from 8 0 (d ∷ e ∷ cs))
    else digits_from 10 0 (c ∷ d ∷ e ∷ cs)

-- the sign, and the rest
unfoldable pub signed_part : List ℕ → Bool × List ℕ
signed_part [] = (false, [])
signed_part (c ∷ cs) =
    if c == 0x2d then (true, cs) else if c == 0x2b then (false, cs) else (false, c ∷ cs)

abbrev pub in_range : Bool → Option ℕ → Option (Bool × ℕ)
in_range negative none = none
in_range negative (some n) =
    if ltb n (2 ^ 63) || (negative && n == 2 ^ 63) then some (negative, n) else none

-- An `int64` as its sign and magnitude; `none` is a syntax or range error.
unfoldable pub parse_int : String → Option (Bool × ℕ)
unfolding signed_part magnitude
parse_int s = in_range (signed_part (codes s)).0 (magnitude (signed_part (codes s)).1)

-- A number out of range gives 0 and the error of `ParseInt`, which is nil there.
unfoldable pub constant_of : Bool → ℕ → ℕ
constant_of negative n =
    if ltb 0xffff_ffff n then 0 else if negative then (2 ^ 32 - n) % 2 ^ 32 else n

abbrev pub constant_or : String → Option (Bool × ℕ) → Result ℕ
constant_or s (some (negative, n)) = ok (constant_of negative n)
constant_or s none = err (invalid_number s)

unfoldable pub parse_constant : String → Result ℕ
unfolding parse_int constant_of
parse_constant s = constant_or s (parse_int s)

constant_of-lt : (negative : Bool) (n : ℕ) → constant_of negative n < 2 ^ 32
unfolding constant_of
constant_of-lt negative n = ground arith

pub parse_constant-lt : (s : String) (c : ℕ) → parse_constant s ≡ ok c → c < 2 ^ 32
unfolding parse_constant
parse_constant-lt s c h = elim (Option-cases (parse_int s)) [
  | inl bad ↦ let q = rw bad at h in absurd (cc)
  | inr (n, good) ↦
      let p = ok-injective (constant_of n.0 n.1) c (rw good at h) in
      omega (arith, p, constant_of-lt n.0 n.1)
]
