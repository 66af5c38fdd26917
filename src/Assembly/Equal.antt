-- ===== src/Assembly/Equal.antt =====
-- `Equal` of lexer.go, and the comparison of `ArgToken`s with `==` that it uses.
pub mod Laws
use mips.Prelude.{
  ℕ, ◌≡◌, refl, sym, ap, ◌∙◌, String, List, [], ◌∷◌, Option, none, some, Bool, true, false, not,
  ◌&&◌, ◌==◌, ==_iff, bool_eq, str_eq, eq_iff, eq_refl, if◌then◌else◌, length, inl, inr, Bool-cases,
  arith,
}
use mathlib.Core.Logic.{◌↔◌}
use mips.Assembly.Token.{ArgToken, TokenizedDirective, TokenizedInstruction, TokenizedLine}

-- `==` on structs
unfoldable pub token_eq : ArgToken → ArgToken → Bool
token_eq t t1 =
    bool_eq t.is_register t1.is_register
    && (t.register == t1.register)
    && bool_eq t.is_constant t1.is_constant
    && (t.constant == t1.constant)
    && bool_eq t.is_symbol t1.is_symbol
    && str_eq t.symbol t1.symbol
    && bool_eq t.is_memory t1.is_memory
    && (t.mem_register == t1.mem_register)
    && (t.mem_offset == t1.mem_offset)

unfoldable pub directive_eq : TokenizedDirective → TokenizedDirective → Bool
directive_eq t t1 = str_eq t.name t1.name && (t.constant == t1.constant)

-- the loop over the arguments; the lists have one length
unfoldable pub tokens_eq : List ArgToken → List ArgToken → Bool
unfolding token_eq
tokens_eq (arg ∷ args) (arg1 ∷ args1) =
    if not (token_eq arg arg1) then false else tokens_eq args args1
tokens_eq _ _ = true

unfoldable pub equal_instruction : TokenizedInstruction → TokenizedInstruction → Bool
unfolding tokens_eq
equal_instruction t t1 =
    if not (str_eq t.name t1.name)
    then false
    else if not (length t.arguments == length t1.arguments)
    then false
    else tokens_eq t.arguments t1.arguments

-- (t.Comment == nil) != (t1.Comment == nil), then the comparison behind the pointers
unfoldable pub differs {ℓ} : {A : Type ℓ} → (A → A → Bool) → Option A → Option A → Bool
differs eq none none = false
differs eq none (some _) = true
differs eq (some _) none = true
differs eq (some a) (some b) = not (eq a b)

unfoldable pub equal : TokenizedLine → TokenizedLine → Bool
unfolding differs directive_eq equal_instruction
equal t t1 =
    if not (t.line_number == t1.line_number)
    then false
    else if differs str_eq t.comment t1.comment
    then false
    else if differs directive_eq t.directive t1.directive
    then false
    else if differs equal_instruction t.instruction t1.instruction
    then false
    else if differs str_eq t.symbol_marker t1.symbol_marker
    then false
    else true
