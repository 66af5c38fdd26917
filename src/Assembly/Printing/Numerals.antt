-- ===== src/Assembly/Printing/Numerals.antt =====
-- The numerals that lexer.go prints: `FormatUint`, `FormatInt` and `Itoa` of Go's `strconv`.
use Prim.Native.Char.{Char}
use mips.Prelude.{
  ℕ, zero, suc, ◌-◌, ◌/◌, ◌%◌, ◌^◌, String, List, [], ◌∷◌, true, false, ltb, if◌then◌else◌, get_or,
}

-- `+` of Go on two strings; it computes at a variable, as the native one does not
infixr 65 ◌+++◌
unfoldable pub ◌+++◌ : String → String → String
String.[] +++ t = t
(String.◌∷◌ c s) +++ t = String.◌∷◌ c (s +++ t)

-- the digits of `strconv`, up to base 16
abbrev pub digits : List Char
digits =
    "0" ∷ "1" ∷ "2" ∷ "3" ∷ "4" ∷ "5" ∷ "6" ∷ "7" ∷ "8" ∷ "9" ∷ "a" ∷ "b" ∷ "c" ∷ "d" ∷ "e" ∷ "f"
    ∷ []

abbrev pub digit : ℕ → Char
digit d = get_or digits d "0"

-- The digits of a number before a text, the last one first. A `uint64` has 64 at most, in any base.
unfoldable pub digits_onto : ℕ → ℕ → ℕ → String → String
digits_onto zero base n behind = behind
digits_onto (suc room) base n behind = elim (ltb n base) [
  | true ↦ String.◌∷◌ (digit n) behind
  | false ↦ digits_onto room base (n / base) (String.◌∷◌ (digit (n % base)) behind)
]

unfoldable pub format_uint : ℕ → ℕ → String
unfolding digits_onto
format_uint base n = digits_onto 64 base n String.[]

-- An integer of w bits, kept as its bit pattern.
unfoldable pub format_int : ℕ → ℕ → ℕ → String
format_int w base n =
    if ltb n (2 ^ (w - 1))
    then format_uint base n
    else String.◌∷◌ "-" (format_uint base (2 ^ w - n))

unfoldable pub unsigned_const32_to_string : ℕ → String
unsigned_const32_to_string constant = format_uint 10 constant

unfoldable pub signed_const32_to_string : ℕ → String
signed_const32_to_string constant = format_int 32 10 constant

unfoldable pub register_to_string : ℕ → String
register_to_string reg_num = String.◌∷◌ "$" (format_uint 10 reg_num)

unfoldable pub signed_const16_to_string : ℕ → String
signed_const16_to_string constant = format_int 16 10 constant

unfoldable pub unsigned_const16_to_string : ℕ → String
unsigned_const16_to_string constant = format_uint 10 constant
