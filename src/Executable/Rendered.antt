-- ===== src/Executable/Rendered.antt =====
-- What a rendered executable means, as a source.
use mathlib.Core.List.{append-nil, append_assoc}
use mips.Prelude.{
  ℕ, ◌≡◌, ◌≢◌, refl, sym, ap, ◌∙◌, subst, String, List, [], ◌∷◌, ◌++◌, Option, none, some, All, inl,
  inr, Bool-cases, ltb, ◌==◌, ==_iff,
}
use mips.Isa.{Instruction, Result, ok, err, panic, add32, ok-injective, bind-ok}
use mips.Coding.Target.{SymbolTable}
use mips.Assembly.Token.{TokenizedLine}
use mips.Assembly.Render.{render}
use mips.Assembly.Lines.{line_instruction, directive_instruction}
use mips.Executable.Image.{Segments}
use mips.Executable.Parse.{segment_at}
use mips.Executable.Render.{
  Rendering, text_line, marker_line, emit, move_to, declare, declare_below, declare_at, at_address,
  render_instruction, render_instructions, declare_rest,
}
use mips.Executable.Source.{
  address_after, address_behind, with_word, with_label, image, labels, line_label, instruction_in,
}
use mips.Executable.Splitting.{
  address_behind-append, image-append, labels-append, instruction-no_fault,
}

abbrev pub read_line : Result TokenizedLine → Option Instruction
read_line (ok line) = instruction_in (line_instruction line)
read_line _ = none

-- the instruction that the line of an instruction is read as
abbrev pub read_back : Instruction → Option Instruction
read_back i = read_line (render i)

-- the instructions of a segment, as they are read back, from an address on
abbrev pub segment_words : ℕ → List Instruction → List (ℕ × Instruction)
segment_words addr [] = []
segment_words addr (i ∷ rest) = with_word (read_back i) addr (segment_words (add32 addr 4) rest)

abbrev pub words_of_segments : List ℕ → Segments → List (ℕ × Instruction)
words_of_segments [] segs = []
words_of_segments (a ∷ rest) segs =
    segment_words a (segment_at a segs) ++ words_of_segments rest segs

-- What is rendered so far: where it leads to, which symbols it declares, which words it places.
pub record Means (all : SymbolTable) (words : List (ℕ × Instruction)) (r : Rendering) : Type 0 where
  pub leads : address_behind r.list 0 ≡ r.current_address
  pub declared : labels r.list 0 ++ r.symbols_left ≡ all
  pub placed : image r.list 0 ≡ words

instruction_in-ok :
    (o : Option (Result Instruction))
    → instruction_in o ≢ none
    → (back : Instruction) × (o ≡ some (ok back))
instruction_in-ok none h = absurd (h refl)
instruction_in-ok (some (ok back)) h = (back, refl)
instruction_in-ok (some (err e)) h = absurd (h refl)
instruction_in-ok (some panic) h = absurd (h refl)

module _ (all : SymbolTable) (words : List (ℕ × Instruction)) (r : Rendering)
    (m : Means all words r) where
  placed-emit :
      (line : TokenizedLine)
      → image (r.list ++ line ∷ []) 0
        ≡ words ++ with_word (instruction_in (line_instruction line)) r.current_address []
  unfolding image
  placed-emit line =
      image-append r.list (line ∷ []) 0
      ∙ ap (λ l. l ++ image (line ∷ []) (address_behind r.list 0)) m.placed
      ∙ ap (λ a. words ++ with_word (instruction_in (line_instruction line)) a []) m.leads

  labels-emit :
      (line : TokenizedLine)
      → labels (r.list ++ line ∷ []) 0
        ≡ labels r.list 0 ++ with_label (line_label line) r.current_address []
  unfolding labels
  labels-emit line =
      labels-append r.list (line ∷ []) 0
      ∙ ap (λ a. labels r.list 0 ++ with_label (line_label line) a []) m.leads

  leads-emit :
      (line : TokenizedLine)
      → address_behind (r.list ++ line ∷ []) 0 ≡ address_after line r.current_address
  leads-emit line = address_behind-append r.list (line ∷ []) 0 ∙ ap (address_after line) m.leads

  pub text-Means : (a : ℕ) → Means all words (emit (text_line a) (record r { current_address = a }))
  unfolding line_instruction directive_instruction
  text-Means a = record {
    leads = leads-emit (text_line a);
    declared =
        ap (λ l. l ++ r.symbols_left) (labels-emit (text_line a) ∙ append-nil (labels r.list 0))
        ∙ m.declared;
    placed = placed-emit (text_line a) ∙ append-nil words;
  }

  declare-Means :
      (s : String × ℕ) (rest : SymbolTable)
      → r.symbols_left ≡ s ∷ rest
      → s.1 ≡ r.current_address
      → Means all words (declare s rest r)
  unfolding declare line_instruction
  declare-Means s rest left here = record {
    leads = leads-emit (marker_line s.0);
    declared =
        ap (λ l. l ++ rest) (labels-emit (marker_line s.0))
        ∙ append_assoc (labels r.list 0) ((s.0, r.current_address) ∷ []) rest
        ∙ ap (λ a. labels r.list 0 ++ (s.0, a) ∷ rest) (sym here)
        ∙ ap (λ l. labels r.list 0 ++ l) (sym left)
        ∙ m.declared;
    placed = placed-emit (marker_line s.0) ∙ append-nil words;
  }

  move_to-Means :
      (a : ℕ)
      → Means all words (move_to a r)
        × ((move_to a r).current_address ≡ a)
        × ((move_to a r).symbols_left ≡ r.symbols_left)
  unfolding move_to
  move_to-Means a = elim (Bool-cases (a == r.current_address)) [
    | inl same ↦ rw same (m, sym ((==_iff a r.current_address).0 same), refl)
    | inr other ↦ rw other (text-Means a, refl, refl)
  ]

  word-Means :
      (i : Instruction) (line : TokenizedLine)
      → render i ≡ ok line
      → read_back i ≢ none
      → Means all
          (words ++ with_word (read_back i) r.current_address [])
          (record (emit line r) { current_address = add32 r.current_address 4 })
  word-Means i line rendered reads =
      let same : read_back i ≡ instruction_in (line_instruction line) = ap read_line rendered in
      let (back, read) = instruction_in-ok (line_instruction line) (λ p. reads (same ∙ p)) in
      let silent : line_label line ≡ none = (instruction-no_fault line back read).1 in
      record {
        leads = leads-emit line ∙ rw (read, address_after) refl;
        declared =
            ap (λ l. l ++ r.symbols_left)
              (labels-emit line
                ∙ ap (λ l. labels r.list 0 ++ with_label l r.current_address []) silent
                ∙ append-nil (labels r.list 0))
            ∙ m.declared;
        placed = placed-emit line ∙ ap (λ o. words ++ with_word o r.current_address []) (sym same);
      }

pub declare_below-Means :
    (all : SymbolTable) (words : List (ℕ × Instruction)) (segment : ℕ) (left : SymbolTable)
    (r : Rendering)
    → r.symbols_left ≡ left
    → Means all words r
    → Means all words (declare_below segment left r)
unfolding declare_below declare
declare_below-Means all words segment [] r is_left m = m
declare_below-Means all words segment (s ∷ rest) r is_left m = elim (Bool-cases (ltb s.1 segment)) [
  | inr above ↦ rw above m
  | inl below ↦
      let (moved, here, kept) = move_to-Means all words r m s.1 in
      rw below (
        declare_below-Means all words segment rest (declare s rest (move_to s.1 r)) refl
          (declare-Means all words (move_to s.1 r) moved s rest (kept ∙ is_left) (sym here)))
]

pub declare_rest-Means :
    (all : SymbolTable) (words : List (ℕ × Instruction)) (left : SymbolTable) (r : Rendering)
    → r.symbols_left ≡ left
    → Means all words r
    → Means all words (declare_rest left r) × ((declare_rest left r).symbols_left ≡ [])
unfolding declare_rest declare
declare_rest-Means all words [] r is_left m = (m, is_left)
declare_rest-Means all words (s ∷ rest) r is_left m =
    let (moved, here, kept) = move_to-Means all words r m s.1 in
    declare_rest-Means all words rest (declare s rest (move_to s.1 r)) refl
      (declare-Means all words (move_to s.1 r) moved s rest (kept ∙ is_left) (sym here))

declare_at-Means :
    (all : SymbolTable) (words : List (ℕ × Instruction)) (left : SymbolTable) (r : Rendering)
    → r.symbols_left ≡ left
    → Means all words r
    → Means all words (declare_at left r)
      × ((declare_at left r).current_address ≡ r.current_address)
unfolding declare_at declare
declare_at-Means all words [] r is_left m = (m, refl)
declare_at-Means all words (s ∷ rest) r is_left m = elim (Bool-cases (s.1 == r.current_address)) [
  | inr later ↦ rw later (m, refl)
  | inl here ↦ rw here (
      declare_at-Means all words rest (declare s rest r) refl
        (declare-Means all words r m s rest is_left ((==_iff s.1 r.current_address).0 here)))
]

at_address-ok :
    (addr : ℕ) (x : Result TokenizedLine) (line : TokenizedLine)
    → at_address addr x ≡ ok line
    → x ≡ ok line
at_address-ok addr (ok l) line h = h
at_address-ok addr (err e) line h = absurd (cc)
at_address-ok addr panic line h = absurd (cc)

render_instruction-Means :
    (all : SymbolTable) (words : List (ℕ × Instruction)) (i : Instruction) (r next : Rendering)
    → Means all words r
    → read_back i ≢ none
    → render_instruction i r ≡ ok next
    → Means all (words ++ with_word (read_back i) r.current_address []) next
      × (next.current_address ≡ add32 r.current_address 4)
unfolding render_instruction
render_instruction-Means all words i r next m reads h =
    let start = declare_at r.symbols_left r in
    let (m1, same) = declare_at-Means all words r.symbols_left r refl m in
    let (line, numbered, done) = bind-ok (at_address start.current_address (render i)) _ next h in
    let rendered = at_address-ok start.current_address (render i) line numbered in
    subst
      (λ x.
        Means all (words ++ with_word (read_back i) r.current_address []) x
        × (x.current_address ≡ add32 r.current_address 4))
      (ok-injective _ next done)
      (
        subst
            (λ a.
              Means all (words ++ with_word (read_back i) a [])
                (record (emit line start) { current_address = add32 start.current_address 4 }))
            same (word-Means all words start m1 i line rendered reads),
        ap (λ a. add32 a 4) same,
      )

with_word-append :
    (words : List (ℕ × Instruction)) (o : Option Instruction) (a : ℕ)
    (rest : List (ℕ × Instruction))
    → (words ++ with_word o a []) ++ rest ≡ words ++ with_word o a rest
with_word-append words none a rest = ap (λ l. l ++ rest) (append-nil words)
with_word-append words (some i) a rest = append_assoc words ((a, i) ∷ []) rest

pub render_instructions-Means :
    (all : SymbolTable) (insts : List Instruction) (words : List (ℕ × Instruction))
    (r final : Rendering)
    → Means all words r
    → All (λ i. read_back i ≢ none) insts
    → render_instructions insts r ≡ ok final
    → Means all (words ++ segment_words r.current_address insts) final
unfolding render_instructions
render_instructions-Means all [] words r final m reads h =
    subst (Means all (words ++ [])) (ok-injective r final h)
      (subst (λ w. Means all w r) (sym (append-nil words)) m)
render_instructions-Means all (i ∷ rest) words r final m reads h =
    let (next, first, others) =
      bind-ok (render_instruction i r) (render_instructions rest) final h in
    let (m1, moved) = render_instruction-Means all words i r next m reads.0 first in
    let m2 =
      render_instructions-Means all rest (words ++ with_word (read_back i) r.current_address [])
        next final m1 reads.1 others in
    subst (λ w. Means all w final)
      (with_word-append words (read_back i) r.current_address
          (segment_words next.current_address rest)
        ∙ ap (λ a. words ++ with_word (read_back i) r.current_address (segment_words a rest)) moved)
      m2
