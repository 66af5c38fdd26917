-- ===== src/Assembly/Reading/Texts.antt =====
-- The functions of Go's `strings` that the lexer calls, on the characters of a text.
use Prim.Native.Char.{Char, code}
use mips.Prelude.{
  ℕ, String, List, [], ◌∷◌, Option, none, some, Bool, ◌&&◌, ◌||◌, leb, ◌==◌, if◌then◌else◌, lookup,
  ◌or_else◌,
}
use mips.Assembly.Reading.Tokens.{is_empty}

-- unicode.IsSpace
unfoldable pub is_space : ℕ → Bool
is_space c =
    (leb 0x09 c && leb c 0x0d)
    || c == 0x20
    || c == 0x85
    || c == 0xa0
    || c == 0x1680
    || (leb 0x2000 c && leb c 0x200a)
    || c == 0x2028
    || c == 0x2029
    || c == 0x202f
    || c == 0x205f
    || c == 0x3000

unfoldable pub trim_left : String → String
unfolding is_space
trim_left String.[] = String.[]
trim_left (String.◌∷◌ c s) = if is_space (code c) then trim_left s else String.◌∷◌ c s

unfoldable pub trim_right : String → String
unfolding is_space
trim_right String.[] = String.[]
trim_right (String.◌∷◌ c s) =
    let rest = trim_right s in
    if is_empty rest && is_space (code c) then String.[] else String.◌∷◌ c rest

unfoldable pub trim_space : String → String
unfolding trim_left trim_right
trim_space s = trim_right (trim_left s)

abbrev pub push_field : String → List String → List String
push_field w ws = if is_empty w then ws else w ∷ ws

-- the characters up to the first space, and the fields behind it
unfoldable pub fields_from : String → String × List String
unfolding is_space
fields_from String.[] = (String.[], [])
fields_from (String.◌∷◌ c s) =
    let rest = fields_from s in
    if is_space (code c)
    then (String.[], push_field rest.0 rest.1)
    else (String.◌∷◌ c rest.0, rest.1)

unfoldable pub fields : String → List String
unfolding fields_from
fields s = push_field (fields_from s).0 (fields_from s).1

-- the first line, and the others
unfoldable pub lines_from : String → String × List String
lines_from String.[] = (String.[], [])
lines_from (String.◌∷◌ c s) =
    let rest = lines_from s in
    if code c == 0x0a then (String.[], rest.0 ∷ rest.1) else (String.◌∷◌ c rest.0, rest.1)

unfoldable pub split_lines : String → List String
unfolding lines_from
split_lines s = (lines_from s).0 ∷ (lines_from s).1

abbrev pub capitals : List (ℕ × Char)
capitals =
    (0x61, "A")
    ∷ (0x62, "B")
    ∷ (0x63, "C")
    ∷ (0x64, "D")
    ∷ (0x65, "E")
    ∷ (0x66, "F")
    ∷ (0x67, "G")
    ∷ (0x68, "H")
    ∷ (0x69, "I")
    ∷ (0x6a, "J")
    ∷ (0x6b, "K")
    ∷ (0x6c, "L")
    ∷ (0x6d, "M")
    ∷ (0x6e, "N")
    ∷ (0x6f, "O")
    ∷ (0x70, "P")
    ∷ (0x71, "Q")
    ∷ (0x72, "R")
    ∷ (0x73, "S")
    ∷ (0x74, "T")
    ∷ (0x75, "U")
    ∷ (0x76, "V")
    ∷ (0x77, "W")
    ∷ (0x78, "X")
    ∷ (0x79, "Y")
    ∷ (0x7a, "Z")
    ∷ []

-- `ToUpper` of letters of the English alphabet: the names of instructions have no others
unfoldable pub to_upper : String → String
to_upper String.[] = String.[]
to_upper (String.◌∷◌ c s) = String.◌∷◌ (lookup (code c) capitals or_else c) (to_upper s)

-- the text without a comma that ends it
unfoldable pub before_comma : String → Option String
before_comma String.[] = none
before_comma (String.◌∷◌ c String.[]) = if code c == 0x2c then some String.[] else none
before_comma (String.◌∷◌ c (String.◌∷◌ d s)) = elim (before_comma (String.◌∷◌ d s)) [
  | some r ↦ some (String.◌∷◌ c r)
  | none ↦ none
]
