-- ===== src/Assembly/Printing/CallCode.antt =====
-- The code of a printed instruction.
use mips.Prelude.{
  ℕ, ◌≡◌, refl, sym, ap, ◌∙◌, subst, String, List, [], ◌∷◌, none, some, true, false, str_eq, eq_iff,
  arith,
}
use mips.Isa.{ok}
use mips.Assembly.Token.{ArgToken, TokenizedInstruction, no_line}
use mips.Assembly.Reading.Numbers.{codes}
use mips.Assembly.Reading.Tokens.{all_of, is_empty, is_word_char}
use mips.Assembly.Reading.Texts.{to_upper, fields, trim_right, is_space}
use mips.Assembly.Reading.Lexer.{directive_match, is_letter, tokenize_instruction, tokenize_code}
use mips.Assembly.Printing.Numerals.{◌+++◌}
use mips.Assembly.Printing.Text.{call_string, join}
use mips.Assembly.Printing.Strings.{all_of-append, append_empty, all_of_mono}
use mips.Assembly.Printing.Arguments.{is_plain}
use mips.Assembly.Printing.Trimming.{
  is_code, is_solid, is_plain-is_code, is_plain-is_solid, no_colon, is_code-no_colon,
  trim_left-append, trim_right-append, trim_right-solid, symbol_match-none,
}
use mips.Assembly.Printing.Operands.{
  Prints, marked, fields-append, fields-solid, fields-join, parse_operands-marked,
  is_empty-parse_arg_token, is_empty-append,
}
use mips.Assembly.Printing.Calls.{Call, is_name}
use mips.Assembly.Printing.Code.{Reads, plain_mono, code_no_mark, left_of, directive_match-other}

-- the facts on the joined texts of arguments
join-is_code :
    (strs : List String) (ts : List ArgToken)
    → Prints strs ts
    → all_of is_code (codes (join strs)) ≡ true
unfolding join is_code ◌+++◌
join-is_code [] ts prints = refl
join-is_code (s ∷ strs) [] prints = absurd prints
join-is_code (s ∷ []) (t ∷ ts) prints = plain_mono is_code is_plain-is_code s prints.0.1
join-is_code (s ∷ s' ∷ strs) (t ∷ ts) prints =
    all_of-append is_code s (", " +++ join (s' ∷ strs))
      (plain_mono is_code is_plain-is_code s prints.0.1) (join-is_code (s' ∷ strs) ts prints.1)

is_empty-join :
    (s : String) (strs : List String) (t : ArgToken) (ts : List ArgToken)
    → Prints (s ∷ strs) (t ∷ ts)
    → is_empty (join (s ∷ strs)) ≡ false
unfolding join ◌+++◌
is_empty-join s [] t ts prints = is_empty-parse_arg_token s t prints.0.0
is_empty-join s (s' ∷ strs) t ts prints = is_empty-append s (", " +++ join (s' ∷ strs)) refl

trim_right-join :
    (strs : List String) (ts : List ArgToken) → Prints strs ts → trim_right (join strs) ≡ join strs
unfolding join is_space ◌+++◌ trim_right
trim_right-join [] ts prints = refl
trim_right-join (s ∷ strs) [] prints = absurd prints
trim_right-join (s ∷ []) (t ∷ ts) prints =
    trim_right-solid s (plain_mono is_solid is_plain-is_solid s prints.0.1)
trim_right-join (s ∷ s' ∷ strs) (t ∷ []) prints = absurd prints.1
trim_right-join (s ∷ s' ∷ strs) (t ∷ t' ∷ ts) prints =
    trim_right-append s (", " +++ join (s' ∷ strs)) refl (
      trim_right-append ", " (join (s' ∷ strs)) (is_empty-join s' strs t' ts prints.1)
        (trim_right-join (s' ∷ strs) (t' ∷ ts) prints.1))

is_letter-is_plain : (c : ℕ) → is_letter c ≡ true → is_plain c ≡ true
unfolding is_letter is_plain is_word_char
is_letter-is_plain c h = ground (arith, h)

-- the facts on a name
pub record Named (n : String) : Type 0 where
  pub filled : is_empty n ≡ false
  pub letters : all_of is_letter (codes n) ≡ true
  pub upper : to_upper n ≡ n
  pub plain : all_of is_plain (codes n) ≡ true

is_name-Named : (n : String) → is_name n ≡ true → Named n
unfolding is_name
is_name-Named n h =
    let letters : all_of is_letter (codes n) ≡ true = ground (arith, h) in
    let upper : str_eq (to_upper n) n ≡ true = ground (arith, h) in
    record {
      filled = ground (arith, h);
      letters = letters;
      upper = (eq_iff (to_upper n) n).0 upper;
      plain = all_of_mono is_letter is_plain is_letter-is_plain (codes n) letters;
    }

name-directive_match : (n t : String) → Named n → directive_match (n +++ t) ≡ none
unfolding ◌+++◌ is_letter
name-directive_match String.[] t named = let h = named.filled in absurd (cc)
name-directive_match (String.◌∷◌ c s) t named =
    let h = named.letters in directive_match-other c (s +++ t) (ground (arith, h))

-- a text with these fields
fields_read :
    (text n : String) (strs : List String) (ts : List ArgToken)
    → Named n
    → is_empty text ≡ false
    → directive_match text ≡ none
    → all_of is_code (codes text) ≡ true
    → fields text ≡ n ∷ marked strs
    → Prints strs ts
    → tokenize_code text
      ≡ ok (record no_line { instruction = some (record { name = n; arguments = ts }) })
unfolding tokenize_code tokenize_instruction
fields_read text n strs ts named filled directive letters split prints =
    rw
      (
        filled,
        directive,
        symbol_match-none text (all_of_mono is_code no_colon is_code-no_colon (codes text) letters),
        split,
        named.letters,
        parse_operands-marked 1 strs ts prints,
        named.upper,
      )
      refl

call-Reads :
    (n : String) (strs : List String) (ts : List ArgToken)
    → Named n
    → Prints strs ts
    → Reads
        (call_string n strs)
        (record no_line { instruction = some (record { name = n; arguments = ts }) })
unfolding call_string is_code ◌+++◌
call-Reads n [] (t ∷ ts) named prints = absurd prints
call-Reads n [] [] named prints =
    let letters = plain_mono is_code is_plain-is_code n named.plain in
    let solid = plain_mono is_solid is_plain-is_solid n named.plain in
    let directive = rw (append_empty n) at (name-directive_match n "" named) in
    record {
      unmarked = code_no_mark n letters;
      left = λ u. trim_left-append n u named.filled solid;
      right = trim_right-solid n solid;
      read =
          fields_read n n [] [] named named.filled directive letters
            (fields-solid n named.filled solid) tt;
    }
call-Reads n (s ∷ strs) [] named prints = absurd prints
call-Reads n (s ∷ strs) (t ∷ ts) named prints =
    let args = join (s ∷ strs) in
    let letters =
      all_of-append is_code n (" " +++ args) (plain_mono is_code is_plain-is_code n named.plain)
        (join-is_code (s ∷ strs) (t ∷ ts) prints) in
    let solid = plain_mono is_solid is_plain-is_solid n named.plain in
    record {
      unmarked = code_no_mark (n +++ " " +++ args) letters;
      left = left_of n (" " +++ args) named.filled solid;
      right = trim_right-append n (" " +++ args) refl (
          trim_right-append " " args (is_empty-join s strs t ts prints)
            (trim_right-join (s ∷ strs) (t ∷ ts) prints));
      read =
          fields_read (n +++ " " +++ args) n (s ∷ strs) (t ∷ ts) named
            (is_empty-append n (" " +++ args) refl) (name-directive_match n (" " +++ args) named)
            letters
            (fields-append n args named.filled solid
              ∙ ap (λ rest. n ∷ rest) (fields-join (s ∷ strs) (t ∷ ts) prints))
            prints;
    }

pub instruction-Reads :
    (t : TokenizedInstruction) (text : String)
    → Call t text
    → Reads text (record no_line { instruction = some t })
instruction-Reads t text call =
    subst (λ s. Reads s (record no_line { instruction = some t })) (sym call.same)
      (call-Reads t.name call.strs t.arguments (is_name-Named t.name call.named) call.prints)
