-- ===== src/Assembly/Reading/Tokens.antt =====
-- `ParseArgToken`. Each regular expression is a test on the characters.
use Prim.Native.Char.{code}
use mips.Prelude.{
  ℕ, String, List, [], ◌∷◌, Option, none, some, Bool, true, false, not, ◌&&◌, ◌||◌, leb, ◌==◌,
  bit_and, if◌then◌else◌,
}
use mips.Isa.{Result, ok, err, panic, ◌>>=◌, u16, bad_token, invalid_memory, offset_out_of_bounds}
use mips.Assembly.Token.{ArgToken, no_token}
use mips.Assembly.Reading.Registers.{parse_register}
use mips.Assembly.Reading.Numbers.{codes, is_digit, digit_value, parse_constant}

abbrev pub all_of : (ℕ → Bool) → List ℕ → Bool
all_of p [] = true
all_of p (c ∷ cs) = p c && all_of p cs

unfoldable pub is_hex : ℕ → Bool
unfolding digit_value
is_hex c = not (digit_value c == 16)

-- [0-9]*|0x[0-9a-fA-F]*
unfoldable pub is_number : List ℕ → Bool
unfolding is_digit is_hex
is_number (c ∷ d ∷ cs) =
    all_of is_digit (c ∷ d ∷ cs) || (c == 0x30 && d == 0x78 && all_of is_hex cs)
is_number cs = all_of is_digit cs

-- constantNumberPattern
unfoldable pub is_constant_text : List ℕ → Bool
unfolding is_number
is_constant_text [] = true
is_constant_text (c ∷ cs) = if c == 0x2d then is_number cs else is_number (c ∷ cs)

unfoldable pub is_word_char : ℕ → Bool
unfolding is_digit
is_word_char c = is_digit c || (leb 0x61 c && leb c 0x7a) || (leb 0x41 c && leb c 0x5a) || c == 0x5f

-- the text before a closing parenthesis that ends it
unfoldable pub before_close : String → Option String
before_close String.[] = none
before_close (String.◌∷◌ c String.[]) = if code c == 0x29 then some String.[] else none
before_close (String.◌∷◌ c (String.◌∷◌ d s)) = elim (before_close (String.◌∷◌ d s)) [
  | some r ↦ some (String.◌∷◌ c r)
  | none ↦ none
]

-- the texts around the first, and around the last, opening parenthesis
unfoldable pub split_first : String → Option (String × String)
split_first String.[] = none
split_first (String.◌∷◌ c s) =
    if code c == 0x28
    then some (String.[], s)
    else elim (split_first s) [ some (a, b) ↦ some (String.◌∷◌ c a, b) | none ↦ none ]

unfoldable pub split_last : String → Option (String × String)
split_last String.[] = none
split_last (String.◌∷◌ c s) = elim (split_last s) [
  | some (a, b) ↦ some (String.◌∷◌ c a, b)
  | none ↦ if code c == 0x28 then some (String.[], s) else none
]

abbrev pub is_empty : String → Bool
is_empty String.[] = true
is_empty (String.◌∷◌ c s) = false

-- memoryRegexp
unfoldable pub is_memory_text : String → Bool
unfolding before_close split_first is_constant_text
is_memory_text s = elim (before_close s) [
  | none ↦ false
  | some inside ↦ elim (split_first inside) [
    | none ↦ false
    | some (offset, reference) ↦ is_constant_text (codes offset) && not (is_empty reference)
  ]
]

unfoldable pub parse_offset : String → Result ℕ
unfolding parse_constant
parse_offset text = if is_empty text then ok 0 else do
  off_num ← parse_constant text
  if not (bit_and off_num 0xffff8000 == 0xffff8000) && not (bit_and off_num 0xffff8000 == 0)
      then err (offset_out_of_bounds text)
      else ok (u16 off_num)

abbrev pub memory_of : String → Option (String × String) → Result ArgToken
memory_of token_str none = err (invalid_memory token_str)
memory_of token_str (some (offset_text, register_text)) = do
  reg ← parse_register register_text
  offset ← parse_offset offset_text
  ok (record no_token { is_memory = true; mem_offset = offset; mem_register = reg })

abbrev pub split_if_closed : Option String → Option (String × String)
split_if_closed none = none
split_if_closed (some inside) = split_last inside

unfoldable pub parse_memory_arg_token : String → Result ArgToken
unfolding before_close split_last parse_offset parse_register
parse_memory_arg_token token_str = memory_of token_str (split_if_closed (before_close token_str))

unfoldable pub parse_register_arg_token : String → Result ArgToken
unfolding parse_register
parse_register_arg_token token_str = do
  reg_num ← parse_register token_str
  ok (record no_token { is_register = true; register = reg_num })

unfoldable pub parse_constant_arg_token : String → Result ArgToken
unfolding parse_constant
parse_constant_arg_token token_str = do
  num ← parse_constant token_str
  ok (record no_token { is_constant = true; constant = num })

unfoldable pub parse_symbol_arg_token : String → Result ArgToken
parse_symbol_arg_token token_str = ok (record no_token { is_symbol = true; symbol = token_str })

abbrev pub unless_register : Result ArgToken → Result ArgToken → Result ArgToken
unless_register (ok token) other = ok token
unless_register (err _) other = other
unless_register panic other = panic

unfoldable pub parse_arg_token : String → Result ArgToken
unfolding parse_register_arg_token parse_constant_arg_token parse_symbol_arg_token
    parse_memory_arg_token is_constant_text is_word_char is_memory_text
parse_arg_token token_str = unless_register (parse_register_arg_token token_str) (
    if is_constant_text (codes token_str)
    then parse_constant_arg_token token_str
    else if all_of is_word_char (codes token_str)
    then parse_symbol_arg_token token_str
    else if is_memory_text token_str
    then parse_memory_arg_token token_str
    else err (bad_token token_str))
