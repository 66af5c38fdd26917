-- ===== src/Executable/Labels.antt =====
-- The symbol table of a source, and where its next word would go.
use mips.Prelude.{
  ℕ, ◌≡◌, refl, sym, ap, ◌∙◌, subst, String, List, [], ◌∷◌, Option, none, some, inl, inr,
  Bool-cases, str_eq, eq_iff, ◌or_try◌, or_try-none, lookup_str, insert_str, lookup_str-insert_str,
}
use mips.Isa.{ok, ok-injective, bind-ok}
use mips.Coding.Target.{SymbolTable}
use mips.Assembly.Token.{TokenizedLine}
use mips.Executable.Image.{Executable}
use mips.Executable.Parse.{Building, nothing_built, append_instruction, parse_line, parse_lines}
use mips.Executable.Join.{parse_executable}
use mips.Executable.Source.{line_label, address_after, address_behind, with_label, labels}
use mips.Executable.Effect.{Effect, placed, moved, labelled, kept, parse_line-Effect}
use mips.Executable.Refines.{address_after-Effect}

unlabelled :
    (line : TokenizedLine) (table : SymbolTable) (ia : ℕ) (s : String)
    → line_label line ≡ none
    → lookup_str s table
      ≡ (lookup_str s table or_try lookup_str s (with_label (line_label line) ia []))
unlabelled line table ia s no_label =
    subst (λ l. lookup_str s table ≡ (lookup_str s table or_try lookup_str s (with_label l ia [])))
      (sym no_label) (or_try-none (lookup_str s table))

new_label :
    (table : SymbolTable) (name : String) (ia : ℕ) (s : String)
    → lookup_str name table ≡ none
    → lookup_str s (insert_str name ia table)
      ≡ (lookup_str s table or_try lookup_str s ((name, ia) ∷ []))
new_label table name ia s absent = elim (Bool-cases (str_eq name s)) [
  | inl same ↦
      lookup_str-insert_str table name ia s
      ∙ rw same (rw (sym (ap (λ k. lookup_str k table) ((eq_iff name s).0 same)) ∙ absent) refl)
  | inr other ↦ lookup_str-insert_str table name ia s ∙ rw other (or_try-none (lookup_str s table))
]

label-Effect :
    {line : TokenizedLine} {b next : Building}
    → Effect line b next
    → (s : String)
    → lookup_str s next.symbols ≡ (
        lookup_str s b.symbols
        or_try lookup_str s (with_label (line_label line) b.instruction_addr []))
unfolding append_instruction
label-Effect {line} {b} (placed i is_inst no_label free) s =
    unlabelled line b.symbols b.instruction_addr s no_label
label-Effect {line} {b} (moved c no_inst to no_label even) s =
    unlabelled line b.symbols b.instruction_addr s no_label
label-Effect {line} {b} (kept no_inst stay no_label) s =
    unlabelled line b.symbols b.instruction_addr s no_label
label-Effect {line} {b} (labelled name no_inst stay is_label new) s =
    subst
      (λ l.
        lookup_str s (insert_str name b.instruction_addr b.symbols)
        ≡ (lookup_str s b.symbols or_try lookup_str s (with_label l b.instruction_addr [])))
      (sym is_label) (new_label b.symbols name b.instruction_addr s new)

lookup_str-with_label :
    (s : String) (ia : ℕ) (label : Option String) (rest : SymbolTable) (o : Option ℕ)
    → ((o or_try lookup_str s (with_label label ia [])) or_try lookup_str s rest)
      ≡ (o or_try lookup_str s (with_label label ia rest))
lookup_str-with_label s ia label rest (some a) = refl
lookup_str-with_label s ia none rest none = refl
lookup_str-with_label s ia (some name) rest none = elim (Bool-cases (str_eq name s)) [
  | inl same ↦ rw same refl
  | inr other ↦ rw other refl
]

pub address_behind-parse_lines :
    (lines : List TokenizedLine) (b final : Building)
    → parse_lines lines b ≡ ok final
    → final.instruction_addr ≡ address_behind lines b.instruction_addr
unfolding parse_lines
address_behind-parse_lines [] b final h =
    ap (λ (x : Building). x.instruction_addr) (sym (ok-injective b final h))
address_behind-parse_lines (line ∷ rest) b final h =
    let (next, first, others) = bind-ok (parse_line line b) (parse_lines rest) final h in
    address_behind-parse_lines rest next final others
    ∙ ap (address_behind rest) (address_after-Effect (parse_line-Effect line b next first))

pub lookup_str-parse_lines :
    (lines : List TokenizedLine) (b final : Building)
    → parse_lines lines b ≡ ok final
    → (s : String)
    → lookup_str s final.symbols
      ≡ (lookup_str s b.symbols or_try lookup_str s (labels lines b.instruction_addr))
unfolding parse_lines labels
lookup_str-parse_lines [] b final h s =
    ap (λ (x : Building). lookup_str s x.symbols) (sym (ok-injective b final h))
    ∙ or_try-none (lookup_str s b.symbols)
lookup_str-parse_lines (line ∷ rest) b final h s =
    let (next, first, others) = bind-ok (parse_line line b) (parse_lines rest) final h in
    let effect = parse_line-Effect line b next first in
    let after = address_after line b.instruction_addr in
    lookup_str-parse_lines rest next final others s
    ∙ ap (λ a. lookup_str s next.symbols or_try lookup_str s (labels rest a))
        (address_after-Effect effect)
    ∙ ap (λ o. o or_try lookup_str s (labels rest after)) (label-Effect effect s)
    ∙ lookup_str-with_label s b.instruction_addr (line_label line) (labels rest after)
        (lookup_str s b.symbols)

-- If a source is accepted, its symbol table gives each label the address where the next word would
-- go at the label's line (four past the word before it, or what the last `.text` line before it
-- names), and has no other symbols. A `.text` line that follows the label does not move it.
pub symbols-parse_executable :
    (lines : List TokenizedLine) (exe : Executable)
    → parse_executable lines ≡ ok exe
    → (s : String) → lookup_str s exe.symbols ≡ lookup_str s (labels lines 0)
unfolding parse_executable
symbols-parse_executable lines exe h s =
    let (b, parsed, joined) = bind-ok (parse_lines lines nothing_built) _ exe h in
    ap (λ (e : Executable). lookup_str s e.symbols) (sym (ok-injective _ exe joined))
    ∙ lookup_str-parse_lines lines nothing_built b parsed s
