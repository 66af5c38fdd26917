-- ===== src/Executable/Ranges.antt =====
-- The addresses of a segment that stays below the top of the address space.
use mips.Prelude.{
  ℕ, zero, suc, ◌+◌, ◌-◌, ◌*◌, ◌/◌, ◌%◌, ◌^◌, ◌<◌, ◌≡◌, refl, sym, ap, ◌∙◌, List, [], ◌∷◌, ◌++◌,
  none, some, arith, All, length, length-append, get_elem?, get_elem?-none, leb, ◌==◌,
  if◌then◌else◌, ◌or_try◌,
}
use mips.Isa.{Instruction}
use mips.Executable.Image.{Segments, holds, segment_end, get_from}
use mips.Executable.Lookup.{get_elem?-lt}
use mips.Executable.Holders.{one, holders, found, get_from-cons}

-- Addresses of words, at least one instruction, and room for one more word below the top.
pub record IsSegment (seg : ℕ × List Instruction) : Type 0 where
  pub aligned : seg.0 % 4 ≡ 0
  pub filled : 0 < length seg.1
  pub below_top : seg.0 + 4 * length seg.1 < 2 ^ 32

-- the address of the word that an address lies in
abbrev pub word_of : ℕ → ℕ
word_of addr = addr / 4 * 4

get_elem?-append :
    {A : Type 0} (xs ys : List A) (i : ℕ)
    → get_elem? (xs ++ ys) i ≡ (get_elem? xs i or_try get_elem? ys (i - length xs))
get_elem?-append [] ys i = ap (get_elem? ys) (omega arith)
get_elem?-append (x ∷ xs) ys zero = refl
get_elem?-append (x ∷ xs) ys (suc i) =
    get_elem?-append xs ys i ∙ ap (λ k. get_elem? xs i or_try get_elem? ys k) (omega arith)

module _ (start : ℕ) (front back : List Instruction) (addr : ℕ)
    (room : start + 4 * length front + 4 * length back < 2 ^ 32) where
  pub one-append :
      one start (front ++ back) addr
      ≡ one start front addr + one (start + 4 * length front) back addr
  unfolding one holds segment_end
  one-append = ground (arith, length-append front back)

-- Below the top, the index alone tells what is found.
pub found_lem :
    (start : ℕ) (insts : List Instruction) (addr : ℕ)
    → start + 4 * length insts < 2 ^ 32
    → found start insts addr
      ≡ (if leb start addr then get_elem? insts ((addr - start) / 4) else none)
unfolding found holds segment_end
found_lem start insts addr room = ground (arith, get_elem?-none insts ((addr - start) / 4))

pub found-append :
    (start : ℕ) (front back : List Instruction) (addr : ℕ)
    → start + 4 * length front + 4 * length back < 2 ^ 32
    → found start (front ++ back) addr
      ≡ (found start front addr or_try found (start + 4 * length front) back addr)
found-append start front back addr room = ground (
  arith,
  found_lem start (front ++ back) addr,
  found_lem start front addr,
  found_lem (start + 4 * length front) back addr,
  length-append front back,
  get_elem?-append front back ((addr - start) / 4),
  ap (get_elem? back) index,
  get_elem?-lt front ((addr - start) / 4),
)
  where
    index : (addr - start) / 4 - length front ≡ (addr - (start + 4 * length front)) / 4
    index = omega arith

pub one_word :
    (start : ℕ) (i : Instruction) (addr : ℕ)
    → start % 4 ≡ 0
    → start + 4 < 2 ^ 32
    → (one start (i ∷ []) addr ≡ (if start == word_of addr then 1 else 0))
      × (found start (i ∷ []) addr ≡ (if start == word_of addr then some i else none))
unfolding one found holds segment_end
one_word start i addr aligned room = (ground arith, ground (arith, found_lem start (i ∷ []) addr))

one-word_of :
    (seg : ℕ × List Instruction) (addr : ℕ)
    → IsSegment seg
    → one seg.0 seg.1 addr ≡ one seg.0 seg.1 (word_of addr)
unfolding one holds segment_end
one-word_of seg addr v = ground arith

found-word_of :
    (seg : ℕ × List Instruction) (addr : ℕ)
    → IsSegment seg
    → found seg.0 seg.1 addr ≡ found seg.0 seg.1 (word_of addr)
unfolding found holds segment_end
found-word_of seg addr v = ground (
  arith,
  found_lem seg.0 seg.1 addr,
  found_lem seg.0 seg.1 (word_of addr),
  ap (get_elem? seg.1) index,
)
  where
    index : (addr - seg.0) / 4 ≡ (word_of addr - seg.0) / 4
    index = omega (arith, v.aligned)

pub holders-word_of :
    (segs : Segments) (addr : ℕ)
    → All IsSegment segs
    → holders segs addr ≡ holders segs (word_of addr)
unfolding holders
holders-word_of [] addr h = refl
holders-word_of (seg ∷ rest) addr h =
    omega (arith, one-word_of seg addr h.0, holders-word_of rest addr h.1)

-- `Get` looks at the word that an address lies in.
pub get_from-word_of :
    (segs : Segments) (addr : ℕ)
    → All IsSegment segs
    → get_from segs addr ≡ get_from segs (word_of addr)
get_from-word_of [] addr h = unfold get_from in refl
get_from-word_of ((start, insts) ∷ rest) addr h =
    get_from-cons start insts rest addr
    ∙ ap (λ f. f or_try get_from rest addr) (found-word_of (start, insts) addr h.0)
    ∙ ap (λ g. found start insts (word_of addr) or_try g) (get_from-word_of rest addr h.1)
    ∙ sym (get_from-cons start insts rest (word_of addr))
