-- ===== src/Assembly/Reading/Lexer.antt =====
-- `TokenizeSource` and `tokenizeLine` of lexer.go. A regular expression is a test on characters.
use Prim.Native.Char.{code}
use mips.Prelude.{
  ℕ, ◌+◌, String, List, [], ◌∷◌, Option, none, some, Bool, false, not, ◌&&◌, ◌||◌, leb, ◌==◌,
  if◌then◌else◌,
}
use mips.Isa.{
  Result, ok, err, panic, ◌>>=◌, invalid_name, missing_comma, at_operand, on_source_line,
}
use mips.Assembly.Token.{ArgToken, TokenizedLine, no_line}
use mips.Assembly.Reading.Numbers.{codes, parse_constant}
use mips.Assembly.Reading.Tokens.{all_of, is_empty, is_constant_text, is_word_char, parse_arg_token}
use mips.Assembly.Reading.Texts.{trim_space, fields, split_lines, to_upper, before_comma}

-- commentRegexp: what stands before and behind the first `#`, `//` or `;`
unfoldable pub split_comment : String → Option (String × String)
split_comment String.[] = none
split_comment (String.◌∷◌ c String.[]) =
    if code c == 0x23 || code c == 0x3b then some (String.[], String.[]) else none
split_comment (String.◌∷◌ c (String.◌∷◌ d s)) =
    let rest = split_comment (String.◌∷◌ d s) in
    if code c == 0x23 || code c == 0x3b
    then some (String.[], String.◌∷◌ d s)
    else if code c == 0x2f && code d == 0x2f
    then some (String.[], s)
    else elim rest [ some (a, b) ↦ some (String.◌∷◌ c a, b) | none ↦ none ]

-- `\s` of a regular expression
unfoldable pub is_blank : ℕ → Bool
is_blank c = c == 0x09 || c == 0x0a || c == 0x0c || c == 0x0d || c == 0x20

unfoldable pub skip_blanks : String → String
unfolding is_blank
skip_blanks String.[] = String.[]
skip_blanks (String.◌∷◌ c s) = if is_blank (code c) then skip_blanks s else String.◌∷◌ c s

abbrev pub number_behind : String → String → Option (String × String)
number_behind name s =
    if is_constant_text (codes (skip_blanks s)) then some (name, skip_blanks s) else none

-- blanks, at least one, and a number
unfoldable pub operand_of : String → String → Option (String × String)
unfolding is_blank skip_blanks is_constant_text
operand_of name String.[] = none
operand_of name (String.◌∷◌ c s) = if is_blank (code c) then number_behind name s else none

-- directiveRegexp: the name, and the number's text
unfoldable pub directive_match : String → Option (String × String)
unfolding operand_of
directive_match (String.◌∷◌ a (String.◌∷◌ b (String.◌∷◌ c (String.◌∷◌ d (String.◌∷◌ e s))))) =
    if code a == 0x2e && code b == 0x74 && code c == 0x65 && code d == 0x78 && code e == 0x74
    then operand_of "text" s
    else if code a == 0x2e && code b == 0x77 && code c == 0x6f && code d == 0x72 && code e == 0x64
    then operand_of "word" s
    else none
directive_match _ = none

-- symbolMarkerRegexp
unfoldable pub symbol_match : String → Option String
unfolding is_word_char
symbol_match String.[] = none
symbol_match (String.◌∷◌ c String.[]) = if code c == 0x3a then some String.[] else none
symbol_match (String.◌∷◌ c (String.◌∷◌ d s)) = elim (symbol_match (String.◌∷◌ d s)) [
  | some r ↦ if is_word_char (code c) then some (String.◌∷◌ c r) else none
  | none ↦ none
]

unfoldable pub is_letter : ℕ → Bool
is_letter c = (leb 0x41 c && leb c 0x5a) || (leb 0x61 c && leb c 0x7a)

abbrev pub operand : ℕ → Result ArgToken → Result ArgToken
operand i (ok token) = ok token
operand i (err e) = err (at_operand i e)
operand i panic = panic

-- the loop over the operands; all but the last end in a comma
unfoldable pub parse_operands : ℕ → List String → Result (List ArgToken)
unfolding before_comma parse_arg_token
parse_operands i [] = ok []
parse_operands i (field ∷ []) = do token ← operand i (parse_arg_token field); ok (token ∷ [])
parse_operands i (field ∷ next ∷ rest) = elim (before_comma field) [
  | none ↦ err (missing_comma i)
  | some text ↦ do
    token ← operand i (parse_arg_token text)
    tokens ← parse_operands (i + 1) (next ∷ rest)
    ok (token ∷ tokens)
]

unfoldable pub tokenize_instruction : List String → Result TokenizedLine
unfolding is_letter to_upper parse_operands
tokenize_instruction [] = err invalid_name
tokenize_instruction (n ∷ operands) =
    if not (all_of is_letter (codes n)) then err invalid_name else do
      tokens ← parse_operands 1 operands
      ok (record no_line { instruction = some (record { name = to_upper n; arguments = tokens }) })

-- a line without a comment
unfoldable pub tokenize_code : String → Result TokenizedLine
unfolding directive_match symbol_match fields tokenize_instruction parse_constant
tokenize_code trimmed = if is_empty trimmed then ok no_line else elim (directive_match trimmed) [
  | some (n, text) ↦ do
    c ← parse_constant text
    ok (record no_line { directive = some (record { name = n; constant = c }) })
  | none ↦ elim (symbol_match trimmed) [
    | some sym ↦ ok (record no_line { symbol_marker = some sym })
    | none ↦ tokenize_instruction (fields trimmed)
  ]
]

-- What stands before the first comment has no comment, so the recursive call takes it as code.
unfoldable pub tokenize_line : String → Result TokenizedLine
unfolding trim_space split_comment tokenize_code
tokenize_line line_text = elim (split_comment (trim_space line_text)) [
  | none ↦ tokenize_code (trim_space line_text)
  | some (before, comment_str) ↦ do
    line ← tokenize_code (trim_space before)
    ok (record line { comment = some comment_str })
]

-- line == TokenizedLine{}
abbrev pub is_zero_line : TokenizedLine → Bool
is_zero_line line = elim line.comment [
  | some _ ↦ false
  | none ↦ elim line.directive [
    | some _ ↦ false
    | none ↦ elim line.instruction [
      | some _ ↦ false
      | none ↦ elim line.symbol_marker [ some _ ↦ false | none ↦ line.line_number == 0 ]
    ]
  ]
]

abbrev pub on_source : ℕ → Result TokenizedLine → Result TokenizedLine
on_source n (ok line) = ok line
on_source n (err e) = err (on_source_line n e)
on_source n panic = panic

abbrev pub keep_line : ℕ → TokenizedLine → List TokenizedLine → List TokenizedLine
keep_line n line rest = if is_zero_line line then rest else record line { line_number = n } ∷ rest

unfoldable pub tokenize_from : ℕ → List String → Result (List TokenizedLine)
unfolding tokenize_line
tokenize_from n [] = ok []
tokenize_from n (text ∷ rest) = do
  line ← on_source n (tokenize_line text)
  others ← tokenize_from (n + 1) rest
  ok (keep_line n line others)

unfoldable pub tokenize_source : String → Result (List TokenizedLine)
unfolding split_lines tokenize_from
tokenize_source source = tokenize_from 1 (split_lines source)
