-- ===== src/Assembly/Printing/Calls.antt =====
-- A printed instruction.
use mips.Prelude.{
  ◌≡◌, refl, subst, String, List, [], ◌∷◌, Bool, true, false, ◌&&◌, ◌||◌, not, str_eq, eq_iff,
  arith, length, All, inl, inr, Bool-cases,
}
use mips.Assembly.Token.{ArgToken, TokenizedInstruction}
use mips.Assembly.Template.{ArgumentType, Template, templates, match, accepts_all}
use mips.Assembly.Reading.Numbers.{codes}
use mips.Assembly.Reading.Tokens.{all_of, is_empty}
use mips.Assembly.Reading.Texts.{to_upper}
use mips.Assembly.Reading.Lexer.{is_letter}
use mips.Assembly.Printing.Text.{
  argument_strings, call_string, instruction_string_from, instruction_string,
}
use mips.Assembly.Printing.Arguments.{Reprints}
use mips.Assembly.Printing.Operands.{Prints}

-- Some template matches.
unfoldable pub is_recognized : List Template → TokenizedInstruction → Bool
unfolding match
is_recognized [] t = false
is_recognized (template ∷ rest) t = match template t || is_recognized rest t

-- the name of an instruction: capital letters
unfoldable pub is_name : String → Bool
is_name n = all_of is_letter (codes n) && str_eq (to_upper n) n && not (is_empty n)

all_names : List Template → Bool
all_names [] = true
all_names (template ∷ rest) = is_name template.name && all_names rest

templates-names : all_names templates ≡ true
unfolding all_names templates is_name is_letter to_upper
templates-names = refl

-- the text of a call
pub record Call (t : TokenizedInstruction) (text : String) : Type 0 where
  pub strs : List String
  pub same : text ≡ call_string t.name strs
  pub prints : Prints strs t.arguments
  pub named : is_name t.name ≡ true

argument_strings-Prints :
    (args : List ArgumentType) (ts : List ArgToken)
    → length args ≡ length ts
    → accepts_all args ts ≡ true
    → All Reprints ts
    → Prints (argument_strings args ts) ts
unfolding argument_strings accepts_all
argument_strings-Prints [] [] len fit each = tt
argument_strings-Prints [] (t ∷ ts) len fit each = absurd (omega (arith, len))
argument_strings-Prints (a ∷ args) [] len fit each = absurd (omega (arith, len))
argument_strings-Prints (a ∷ args) (t ∷ ts) len fit each = (
  each.0 a (ground (arith, fit)),
  argument_strings-Prints args ts (omega (arith, len)) (ground (arith, fit)) each.1,
)

matched-Call :
    (template : Template) (t : TokenizedInstruction)
    → is_name template.name ≡ true
    → match template t ≡ true
    → All Reprints t.arguments
    → Call t (call_string t.name (argument_strings template.arguments t.arguments))
unfolding match
matched-Call template t named fit each = record {
  strs = argument_strings template.arguments t.arguments;
  same = refl;
  prints =
      argument_strings-Prints template.arguments t.arguments (ground (arith, fit))
        (ground (arith, fit)) each;
  named =
      let same_name : str_eq template.name t.name ≡ true = ground (arith, fit) in
      subst (λ n. is_name n ≡ true) ((eq_iff template.name t.name).0 same_name) named;
}

instruction_string_from-Call :
    (ts : List Template) (t : TokenizedInstruction)
    → all_names ts ≡ true
    → is_recognized ts t ≡ true
    → All Reprints t.arguments
    → Call t (instruction_string_from ts t)
unfolding instruction_string_from is_recognized all_names
instruction_string_from-Call [] t named known each = absurd (cc)
instruction_string_from-Call (template ∷ rest) t named known each =
    elim (Bool-cases (match template t)) [
      | inl fit ↦ rw fit (matched-Call template t (ground (arith, named)) fit each)
      | inr other ↦
          rw other
            (instruction_string_from-Call rest t (ground (arith, named)) (rw other at known) each)
    ]

pub instruction_string-Call :
    (t : TokenizedInstruction)
    → is_recognized templates t ≡ true
    → All Reprints t.arguments
    → Call t (instruction_string t)
unfolding instruction_string
instruction_string-Call t known each =
    instruction_string_from-Call templates t templates-names known each
