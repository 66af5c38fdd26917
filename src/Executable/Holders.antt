-- ===== src/Executable/Holders.antt =====
-- How many segments hold an address, and what `Get` finds there when it is at most one.
use mips.Prelude.{
  ℕ, zero, suc, ◌+◌, ◌-◌, ◌<◌, ◌≤◌, ◌≡◌, refl, ap, ◌∙◌, List, [], ◌∷◌, Option, none, some, arith,
  length, get_elem?, inl, inr, Bool-cases, ◌==◌, ==_iff, if◌then◌else◌, ◌or_try◌, insert, remove,
  lookup-insert, remove-insert_self,
}
use mips.Isa.{Instruction, ◌>>>◌}
use mips.Executable.Image.{Segments, holds, segment_end, get_from}
use mips.Executable.Lookup.{holds-index_lt}
use mips.Executable.Parse.{segment_at, instructions_of}

-- 1 if the segment holds the address
unfoldable pub one : ℕ → List Instruction → ℕ → ℕ
unfolding holds
one start insts addr = if holds addr (start, insts) then 1 else 0

unfoldable pub holders : Segments → ℕ → ℕ
unfolding one
holders [] addr = 0
holders (seg ∷ rest) addr = one seg.0 seg.1 addr + holders rest addr

-- what `Get` finds in one segment
unfoldable pub found : ℕ → List Instruction → ℕ → Option Instruction
unfolding holds
found start insts addr =
    if holds addr (start, insts) then get_elem? insts ((addr - start) >>> 2) else none

pub one-none : (start addr : ℕ) → one start [] addr ≡ 0
unfolding one holds segment_end
one-none start addr = ground arith

pub found-none :
    (start : ℕ) (insts : List Instruction) (addr : ℕ)
    → one start insts addr ≡ 0
    → found start insts addr ≡ none
unfolding one found
found-none start insts addr h = ground arith

pub found-nil : (start addr : ℕ) → found start [] addr ≡ none
unfolding found
found-nil start addr = ground arith

get_elem?-some :
    {A : Type 0} (xs : List A) (i : ℕ) → i < length xs → (a : A) × (get_elem? xs i ≡ some a)
get_elem?-some [] i h = absurd (omega (arith, h))
get_elem?-some (x ∷ xs) zero h = (x, refl)
get_elem?-some (x ∷ xs) (suc i) h = get_elem?-some xs i (omega (arith, h))

pub one-found :
    (start : ℕ) (insts : List Instruction) (addr : ℕ)
    → found start insts addr ≡ none
    → one start insts addr ≡ 0
unfolding one found
one-found start insts addr h = elim (Bool-cases (holds addr (start, insts))) [
  | inl here ↦
      let (i, p) =
        get_elem?-some insts ((addr - start) >>> 2) (holds-index_lt addr start insts here) in
      let q = rw here at h in absurd (cc)
  | inr elsewhere ↦ rw elsewhere refl
]

pub get_from-cons :
    (start : ℕ) (insts : List Instruction) (rest : Segments) (addr : ℕ)
    → get_from ((start, insts) ∷ rest) addr ≡ (found start insts addr or_try get_from rest addr)
unfolding get_from found
get_from-cons start insts rest addr = elim (Bool-cases (holds addr (start, insts))) [
  | inl here ↦
      let (i, p) =
        get_elem?-some insts ((addr - start) >>> 2) (holds-index_lt addr start insts here) in
      rw here (rw p refl)
  | inr elsewhere ↦ rw elsewhere refl
]

pub holders-none : (segs : Segments) (addr : ℕ) → holders segs addr ≡ 0 → get_from segs addr ≡ none
unfolding holders one get_from
holders-none [] addr h = refl
holders-none ((start, insts) ∷ rest) addr h = ground (arith, holders-none rest addr)

pub none-holders : (segs : Segments) (addr : ℕ) → get_from segs addr ≡ none → holders segs addr ≡ 0
unfolding holders
none-holders [] addr h = refl
none-holders ((start, insts) ∷ rest) addr h =
    ground (
      arith,
      get_from-cons start insts rest addr,
      one-found start insts addr,
      none-holders rest addr,
    )

pub holders-remove :
    (segs : Segments) (start addr : ℕ)
    → holders segs addr ≡ one start (segment_at start segs) addr + holders (remove start segs) addr
unfolding holders
holders-remove [] start addr = rw one-none refl
holders-remove (seg ∷ rest) start addr = ground (arith, holders-remove rest start addr)

pub holders-insert :
    (segs : Segments) (start : ℕ) (insts : List Instruction) (addr : ℕ)
    → holders (insert start insts segs) addr
      ≡ one start insts addr + holders (remove start segs) addr
unfolding holders
holders-insert [] start insts addr = refl
holders-insert (seg ∷ rest) start insts addr = ground (arith, holders-insert rest start insts addr)

-- At an address that at most one segment holds, `Get` does not depend on where a segment stands.
pub get_from-remove :
    (segs : Segments) (start addr : ℕ)
    → holders segs addr ≤ 1
    → get_from segs addr
      ≡ (found start (segment_at start segs) addr or_try get_from (remove start segs) addr)
unfolding holders
get_from-remove [] start addr h = unfold get_from in rw found-nil refl
get_from-remove ((j, insts) ∷ rest) start addr h = elim (Bool-cases (j == start)) [
  | inl same ↦ rw same (rw ((==_iff j start).0 same) (get_from-cons start insts rest addr))
  | inr other ↦ rw other (
      ground (
        arith,
        get_from-cons j insts rest addr,
        get_from-cons j insts (remove start rest) addr,
        get_from-remove rest start addr,
        holders-remove rest start addr,
        found-none j insts addr,
        found-none start (segment_at start rest) addr,
      ))
]

pub segment_at-insert :
    (segs : Segments) (start : ℕ) (insts : List Instruction)
    → segment_at start (insert start insts segs) ≡ insts
segment_at-insert segs start insts =
    ap instructions_of (lookup-insert segs start insts start)
    ∙ rw ((==_iff start start).1 refl) refl

pub get_from-insert :
    (segs : Segments) (start : ℕ) (insts : List Instruction) (addr : ℕ)
    → holders (insert start insts segs) addr ≤ 1
    → get_from (insert start insts segs) addr
      ≡ (found start insts addr or_try get_from (remove start segs) addr)
get_from-insert segs start insts addr h =
    get_from-remove (insert start insts segs) start addr h
    ∙ ap (λ m. found start (segment_at start (insert start insts segs)) addr or_try get_from m addr)
        (remove-insert_self segs start insts)
    ∙ ap (λ l. found start l addr or_try get_from (remove start segs) addr)
        (segment_at-insert segs start insts)
