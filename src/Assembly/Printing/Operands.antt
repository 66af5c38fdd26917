-- ===== src/Assembly/Printing/Operands.antt =====
-- The operands of a printed call: `Fields` and the loop of tokenizeLine over them.
use Prim.Native.Char.{code}
use mips.Prelude.{ℕ, ◌+◌, ◌≡◌, refl, sym, ap, ◌∙◌, String, List, [], ◌∷◌, some, true, false, arith}
use mips.Isa.{ok}
use mips.Assembly.Token.{ArgToken}
use mips.Assembly.Reading.Numbers.{codes}
use mips.Assembly.Reading.Tokens.{all_of, is_empty, parse_arg_token}
use mips.Assembly.Reading.Texts.{is_space, fields_from, fields, before_comma}
use mips.Assembly.Reading.Lexer.{parse_operands}
use mips.Assembly.Printing.Numerals.{◌+++◌}
use mips.Assembly.Printing.Text.{join}
use mips.Assembly.Printing.Strings.{all_of-append, append_assoc, all_of_mono}
use mips.Assembly.Printing.Arguments.{is_plain}
use mips.Assembly.Printing.Trimming.{is_solid, is_plain-is_solid}

-- the texts of a list of tokens
abbrev pub Prints : List String → List ArgToken → Type 0
Prints [] [] = Unit
Prints (s ∷ strs) (t ∷ ts) =
    ((parse_arg_token s ≡ ok t) × (all_of is_plain (codes s) ≡ true)) × Prints strs ts
Prints _ _ = ⊥

fields_from-solid : (s : String) → all_of is_solid (codes s) ≡ true → fields_from s ≡ (s, [])
unfolding fields_from
fields_from-solid String.[] h = refl
fields_from-solid (String.◌∷◌ c s) h =
    let solid : is_space (code c) ≡ false = ground (arith, h) in
    rw (fields_from-solid s (ground (arith, h)), solid) refl

fields_from-append :
    (s t : String)
    → all_of is_solid (codes s) ≡ true
    → fields_from (s +++ " " +++ t) ≡ (s, fields t)
unfolding fields_from ◌+++◌ is_space fields
fields_from-append String.[] t h = refl
fields_from-append (String.◌∷◌ c s) t h =
    let solid : is_space (code c) ≡ false = ground (arith, h) in
    rw (fields_from-append s t (ground (arith, h)), solid) refl

pub fields-append :
    (s t : String)
    → is_empty s ≡ false
    → all_of is_solid (codes s) ≡ true
    → fields (s +++ " " +++ t) ≡ s ∷ fields t
unfolding fields
fields-append s t filled h = rw (fields_from-append s t h, filled) refl

pub fields-solid :
    (s : String) → is_empty s ≡ false → all_of is_solid (codes s) ≡ true → fields s ≡ s ∷ []
unfolding fields
fields-solid s filled h = rw (fields_from-solid s h, filled) refl

before_comma-append : (s : String) → before_comma (s +++ ",") ≡ some s
unfolding before_comma ◌+++◌
before_comma-append String.[] = refl
before_comma-append (String.◌∷◌ c String.[]) = refl
before_comma-append (String.◌∷◌ c (String.◌∷◌ d s)) = rw (before_comma-append (String.◌∷◌ d s)) refl

pub is_empty-append : (s t : String) → is_empty t ≡ false → is_empty (s +++ t) ≡ false
unfolding ◌+++◌
is_empty-append String.[] t h = h
is_empty-append (String.◌∷◌ c s) t h = refl

-- a text that is read is not empty
pub is_empty-parse_arg_token :
    (s : String) (t : ArgToken) → parse_arg_token s ≡ ok t → is_empty s ≡ false
unfolding parse_arg_token
is_empty-parse_arg_token String.[] t h = absurd (cc)
is_empty-parse_arg_token (String.◌∷◌ c s) t h = refl

plain_solid : (s : String) → all_of is_plain (codes s) ≡ true → all_of is_solid (codes s) ≡ true
plain_solid s h = all_of_mono is_plain is_solid is_plain-is_solid (codes s) h

-- the fields of the joined texts: all but the last end in a comma
abbrev pub marked : List String → List String
marked [] = []
marked (s ∷ []) = s ∷ []
marked (s ∷ t ∷ strs) = (s +++ ",") ∷ marked (t ∷ strs)

pub fields-join :
    (strs : List String) (ts : List ArgToken) → Prints strs ts → fields (join strs) ≡ marked strs
unfolding join ◌+++◌ fields fields_from
fields-join [] ts prints = refl
fields-join (s ∷ strs) [] prints = absurd prints
fields-join (s ∷ []) (t ∷ ts) prints =
    fields-solid s (is_empty-parse_arg_token s t prints.0.0) (plain_solid s prints.0.1)
fields-join (s ∷ s' ∷ strs) (t ∷ ts) prints =
    ap fields (sym (append_assoc s "," (" " +++ join (s' ∷ strs))))
    ∙ fields-append (s +++ ",") (join (s' ∷ strs)) (is_empty-append s "," refl)
        (all_of-append is_solid s "," (plain_solid s prints.0.1) refl)
    ∙ ap (λ rest. (s +++ ",") ∷ rest) (fields-join (s' ∷ strs) ts prints.1)

parse_operands-next :
    (i : ℕ) (field text next : String) (rest : List String) (t : ArgToken) (ts : List ArgToken)
    → before_comma field ≡ some text
    → parse_arg_token text ≡ ok t
    → parse_operands (i + 1) (next ∷ rest) ≡ ok ts
    → parse_operands i (field ∷ next ∷ rest) ≡ ok (t ∷ ts)
unfolding parse_operands
parse_operands-next i field text next rest t ts ended read others =
    rw (ended, parse_operands) (rw (read, others) refl)

pub parse_operands-marked :
    (i : ℕ) (strs : List String) (ts : List ArgToken)
    → Prints strs ts
    → parse_operands i (marked strs) ≡ ok ts
unfolding parse_operands
parse_operands-marked i [] [] prints = refl
parse_operands-marked i [] (t ∷ ts) prints = absurd prints
parse_operands-marked i (s ∷ strs) [] prints = absurd prints
parse_operands-marked i (s ∷ []) (t ∷ []) prints = rw prints.0.0 refl
parse_operands-marked i (s ∷ []) (t ∷ t' ∷ ts) prints = absurd prints.1
parse_operands-marked i (s ∷ s' ∷ strs) (t ∷ []) prints = absurd prints.1
parse_operands-marked i (s ∷ s' ∷ []) (t ∷ t' ∷ ts) prints =
    parse_operands-next i (s +++ ",") s s' [] t (t' ∷ ts) (before_comma-append s) prints.0.0
      (parse_operands-marked (i + 1) (s' ∷ []) (t' ∷ ts) prints.1)
parse_operands-marked i (s ∷ s' ∷ s'' ∷ strs) (t ∷ t' ∷ ts) prints =
    parse_operands-next i (s +++ ",") s (s' +++ ",") (marked (s'' ∷ strs)) t (t' ∷ ts)
      (before_comma-append s) prints.0.0
      (parse_operands-marked (i + 1) (s' ∷ s'' ∷ strs) (t' ∷ ts) prints.1)
