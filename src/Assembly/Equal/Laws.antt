-- ===== src/Assembly/Equal/Laws.antt =====
-- `Equal` compares whole lines.
use mips.Prelude.{
  ◌≡◌, refl, ap, subst, List, [], ◌∷◌, Option, none, some, Bool, true, false, bool_eq, str_eq,
  eq_iff, eq_refl, length, arith,
}
use mathlib.Core.Option.{some-injective}
use mathlib.Core.Logic.{◌↔◌}
use mips.Assembly.Token.{ArgToken, TokenizedLine}
use mips.Assembly.Equal.{token_eq, directive_eq, tokens_eq, equal_instruction, differs, equal}

bool_eq_iff : (a b : Bool) → (bool_eq a b ≡ true) ↔ (a ≡ b)
bool_eq_iff true true = (λ _. refl, λ _. refl)
bool_eq_iff false false = (λ _. refl, λ _. refl)
bool_eq_iff true false = (λ h. cc, λ h. cc)
bool_eq_iff false true = (λ h. cc, λ h. cc)

-- A Boolean test decides equality.
Decides : {A : Type 0} → (A → A → Bool) → Type 0
Decides {A} eq = (a b : A) → (eq a b ≡ true) ↔ (a ≡ b)

token_eq-Decides : Decides token_eq
unfolding Decides token_eq
token_eq-Decides t t1 = (
  λ h.
      let p0 : t.is_register ≡ t1.is_register =
        ground (arith, h, bool_eq_iff t.is_register t1.is_register) in
      let p1 : t.register ≡ t1.register = ground (arith, h) in
      let p2 : t.is_constant ≡ t1.is_constant =
        ground (arith, h, bool_eq_iff t.is_constant t1.is_constant) in
      let p3 : t.constant ≡ t1.constant = ground (arith, h) in
      let p4 : t.is_symbol ≡ t1.is_symbol =
        ground (arith, h, bool_eq_iff t.is_symbol t1.is_symbol) in
      let p5 : t.symbol ≡ t1.symbol = ground (arith, h, eq_iff t.symbol t1.symbol) in
      let p6 : t.is_memory ≡ t1.is_memory =
        ground (arith, h, bool_eq_iff t.is_memory t1.is_memory) in
      let p7 : t.mem_register ≡ t1.mem_register = ground (arith, h) in
      let p8 : t.mem_offset ≡ t1.mem_offset = ground (arith, h) in
      λ k. record {
        is_register = p0 k;
        register = p1 k;
        is_constant = p2 k;
        constant = p3 k;
        is_symbol = p4 k;
        symbol = p5 k;
        is_memory = p6 k;
        mem_register = p7 k;
        mem_offset = p8 k;
      },
  λ p.
      subst (λ x. token_eq t x ≡ true) p
        (ground (
          arith,
          eq_refl t.symbol,
          bool_eq_iff t.is_register t.is_register,
          bool_eq_iff t.is_constant t.is_constant,
          bool_eq_iff t.is_symbol t.is_symbol,
          bool_eq_iff t.is_memory t.is_memory,
        )),
)

directive_eq-Decides : Decides directive_eq
unfolding Decides directive_eq
directive_eq-Decides t t1 = (
  λ h.
      let p0 : t.name ≡ t1.name = ground (arith, h, eq_iff t.name t1.name) in
      let p1 : t.constant ≡ t1.constant = ground (arith, h) in
      λ k. record { name = p0 k; constant = p1 k },
  λ p. subst (λ x. directive_eq t x ≡ true) p (ground (arith, eq_refl t.name)),
)

tokens_eq-Decides :
    (ts ts1 : List ArgToken) → length ts ≡ length ts1 → (tokens_eq ts ts1 ≡ true) ↔ (ts ≡ ts1)
unfolding tokens_eq Decides
tokens_eq-Decides [] [] same = (λ _. refl, λ _. refl)
tokens_eq-Decides [] (t1 ∷ ts1) same = absurd (omega (arith, same))
tokens_eq-Decides (t ∷ ts) [] same = absurd (omega (arith, same))
tokens_eq-Decides (t ∷ ts) (t1 ∷ ts1) same =
    let rest = tokens_eq-Decides ts ts1 (omega (arith, same)) in
    (
      λ h.
          let p : t ≡ t1 = (token_eq-Decides t t1).0 (ground (arith, h)) in
          let ps : ts ≡ ts1 = rest.0 (ground (arith, h)) in λ k. p k ∷ ps k,
      λ p.
          let heads : t ≡ t1 = cc in
          let tails : ts ≡ ts1 = cc in
          ground (arith, (token_eq-Decides t t1).1 heads, rest.1 tails),
    )

equal_instruction-Decides : Decides equal_instruction
unfolding Decides equal_instruction
equal_instruction-Decides t t1 = (
  λ h.
      let sizes : length t.arguments ≡ length t1.arguments = ground (arith, h) in
      let p0 : t.name ≡ t1.name = ground (arith, h, eq_iff t.name t1.name) in
      let p1 : t.arguments ≡ t1.arguments =
        (tokens_eq-Decides t.arguments t1.arguments sizes).0 (ground (arith, h)) in
      λ k. record { name = p0 k; arguments = p1 k },
  λ p.
      subst (λ x. equal_instruction t x ≡ true) p
        (ground (arith, eq_refl t.name, (tokens_eq-Decides t.arguments t.arguments refl).1 refl)),
)

str_eq-Decides : Decides str_eq
unfolding Decides
str_eq-Decides a b = eq_iff a b

differs-Decides :
    {A : Type 0} (eq : A → A → Bool)
    → Decides eq
    → (a b : Option A) → (differs eq a b ≡ false) ↔ (a ≡ b)
unfolding differs Decides
differs-Decides eq d none none = (λ _. refl, λ _. refl)
differs-Decides eq d none (some b) = (λ h. cc, λ h. cc)
differs-Decides eq d (some a) none = (λ h. cc, λ h. cc)
differs-Decides eq d (some a) (some b) = (
  λ h. ap some ((d a b).0 (ground (arith, h))),
  λ p. ground (arith, (d a b).1, some-injective _ _ p),
)

-- `Equal` answers true for two lines exactly when all their fields are the same: the line number,
-- the comment, the directive, the instruction with its arguments, and the symbol.
pub equal_iff : (t t1 : TokenizedLine) → (equal t t1 ≡ true) ↔ (t ≡ t1)
unfolding equal
equal_iff t t1 =
    let comments = differs-Decides str_eq str_eq-Decides t.comment t1.comment in
    let directives = differs-Decides directive_eq directive_eq-Decides t.directive t1.directive in
    let instructions =
      differs-Decides equal_instruction equal_instruction-Decides t.instruction t1.instruction in
    let symbols = differs-Decides str_eq str_eq-Decides t.symbol_marker t1.symbol_marker in
    (
      λ h.
          let p0 : t.line_number ≡ t1.line_number = ground (arith, h) in
          let p1 : t.comment ≡ t1.comment = comments.0 (ground (arith, h)) in
          let p2 : t.directive ≡ t1.directive = directives.0 (ground (arith, h)) in
          let p3 : t.instruction ≡ t1.instruction = instructions.0 (ground (arith, h)) in
          let p4 : t.symbol_marker ≡ t1.symbol_marker = symbols.0 (ground (arith, h)) in
          λ k. record {
            line_number = p0 k;
            comment = p1 k;
            directive = p2 k;
            instruction = p3 k;
            symbol_marker = p4 k;
          },
      λ p. ground (
        arith,
        ap (λ (x : TokenizedLine). x.line_number) p,
        comments.1 (ap (λ (x : TokenizedLine). x.comment) p),
        directives.1 (ap (λ (x : TokenizedLine). x.directive) p),
        instructions.1 (ap (λ (x : TokenizedLine). x.instruction) p),
        symbols.1 (ap (λ (x : TokenizedLine). x.symbol_marker) p),
      ),
    )
