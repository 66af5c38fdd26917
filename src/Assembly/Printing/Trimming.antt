-- ===== src/Assembly/Printing/Trimming.antt =====
-- `TrimSpace`, the search for a comment and the symbol's mark, on texts that are put together.
use Prim.Native.Char.{code}
use mips.Prelude.{ℕ, ◌≡◌, refl, String, none, some, Bool, true, false, ◌&&◌, ◌||◌, not, ◌==◌, arith}
use mips.Assembly.Reading.Numbers.{codes, is_digit}
use mips.Assembly.Reading.Tokens.{all_of, is_empty, is_word_char}
use mips.Assembly.Reading.Texts.{is_space, trim_left, trim_right}
use mips.Assembly.Reading.Lexer.{split_comment, symbol_match}
use mips.Assembly.Printing.Numerals.{◌+++◌}
use mips.Assembly.Printing.Arguments.{is_plain}

-- the characters of a printed line without its comment; a directive begins with a dot
unfoldable pub is_code : ℕ → Bool
unfolding is_plain
is_code c = is_plain c || c == 0x20 || c == 0x2c || c == 0x2e

-- no space
abbrev pub is_solid : ℕ → Bool
is_solid c = not (is_space c)

pub is_plain-is_code : (c : ℕ) → is_plain c ≡ true → is_code c ≡ true
unfolding is_code
is_plain-is_code c h = ground (arith, h)

pub is_plain-is_solid : (c : ℕ) → is_plain c ≡ true → is_solid c ≡ true
unfolding is_plain is_word_char is_digit is_space
is_plain-is_solid c h = ground (arith, h)

-- neither a mark that begins a comment nor the end of a line
abbrev pub no_mark : ℕ → Bool
no_mark c = not (c == 0x23) && not (c == 0x3b) && not (c == 0x2f) && not (c == 0x0a)

pub is_code-no_mark : (c : ℕ) → is_code c ≡ true → no_mark c ≡ true
unfolding is_code is_plain is_word_char is_digit
is_code-no_mark c h = ground (arith, h)

abbrev pub no_colon : ℕ → Bool
no_colon c = not (c == 0x3a)

pub is_code-no_colon : (c : ℕ) → is_code c ≡ true → no_colon c ≡ true
unfolding is_code is_plain is_word_char is_digit
is_code-no_colon c h = ground (arith, h)

pub trim_left-append :
    (s t : String)
    → is_empty s ≡ false
    → all_of is_solid (codes s) ≡ true
    → trim_left (s +++ t) ≡ (s +++ t)
unfolding trim_left ◌+++◌
trim_left-append String.[] t filled h = absurd (cc)
trim_left-append (String.◌∷◌ c s) t filled h =
    let solid : is_space (code c) ≡ false = ground (arith, h) in rw solid refl

pub trim_right-append :
    (s t : String) → is_empty t ≡ false → trim_right t ≡ t → trim_right (s +++ t) ≡ (s +++ t)
unfolding trim_right ◌+++◌
trim_right-append String.[] t filled h = h
trim_right-append (String.◌∷◌ c String.[]) t filled h = rw (h, filled) refl
trim_right-append (String.◌∷◌ c (String.◌∷◌ d s)) t filled h =
    rw (trim_right-append (String.◌∷◌ d s) t filled h) refl

pub trim_right-solid : (s : String) → all_of is_solid (codes s) ≡ true → trim_right s ≡ s
unfolding trim_right
trim_right-solid String.[] h = refl
trim_right-solid (String.◌∷◌ c s) h =
    let solid : is_space (code c) ≡ false = ground (arith, h) in
    rw (trim_right-solid s (ground (arith, h)), solid) (ground arith)

pub trim_right-space : (s : String) → trim_right (s +++ " ") ≡ trim_right s
unfolding trim_right ◌+++◌ is_space
trim_right-space String.[] = refl
trim_right-space (String.◌∷◌ c s) = rw (trim_right-space s) refl

pub split_comment-none : (s : String) → all_of no_mark (codes s) ≡ true → split_comment s ≡ none
unfolding split_comment
split_comment-none String.[] h = refl
split_comment-none (String.◌∷◌ c String.[]) h = ground (arith, h)
split_comment-none (String.◌∷◌ c (String.◌∷◌ d s)) h =
    let rest = split_comment-none (String.◌∷◌ d s) (ground (arith, h)) in
    let sharp : (code c == 0x23) ≡ false = ground (arith, h) in
    let semicolon : (code c == 0x3b) ≡ false = ground (arith, h) in
    let slash : (code c == 0x2f) ≡ false = ground (arith, h) in
    rw (rest, sharp, semicolon, slash) refl

pub split_comment-append :
    (s t : String) → all_of no_mark (codes s) ≡ true → split_comment (s +++ "#" +++ t) ≡ some (s, t)
unfolding split_comment ◌+++◌
split_comment-append String.[] String.[] h = refl
split_comment-append String.[] (String.◌∷◌ d t) h = refl
split_comment-append (String.◌∷◌ c String.[]) t h =
    let rest = split_comment-append String.[] t refl in
    let sharp : (code c == 0x23) ≡ false = ground (arith, h) in
    let semicolon : (code c == 0x3b) ≡ false = ground (arith, h) in
    let slash : (code c == 0x2f) ≡ false = ground (arith, h) in
    rw (rest, sharp, semicolon, slash) refl
split_comment-append (String.◌∷◌ c (String.◌∷◌ d s)) t h =
    let rest = split_comment-append (String.◌∷◌ d s) t (ground (arith, h)) in
    let sharp : (code c == 0x23) ≡ false = ground (arith, h) in
    let semicolon : (code c == 0x3b) ≡ false = ground (arith, h) in
    let slash : (code c == 0x2f) ≡ false = ground (arith, h) in
    rw (rest, sharp, semicolon, slash) refl

pub symbol_match-none : (s : String) → all_of no_colon (codes s) ≡ true → symbol_match s ≡ none
unfolding symbol_match
symbol_match-none String.[] h = refl
symbol_match-none (String.◌∷◌ c String.[]) h = ground (arith, h)
symbol_match-none (String.◌∷◌ c (String.◌∷◌ d s)) h =
    rw (symbol_match-none (String.◌∷◌ d s) (ground (arith, h))) refl

pub symbol_match-append :
    (s : String) → all_of is_word_char (codes s) ≡ true → symbol_match (s +++ ":") ≡ some s
unfolding symbol_match ◌+++◌
symbol_match-append String.[] h = refl
symbol_match-append (String.◌∷◌ c String.[]) h =
    let word : is_word_char (code c) ≡ true = ground (arith, h) in rw word refl
symbol_match-append (String.◌∷◌ c (String.◌∷◌ d s)) h =
    let word : is_word_char (code c) ≡ true = ground (arith, h) in
    rw (symbol_match-append (String.◌∷◌ d s) (ground (arith, h)), word) refl
