-- ===== src/Executable/Lookup.antt =====
-- What `Get`, `End` and `addressInUse` have to do with the segments.
use mathlib.Core.Logic.{◌↔◌}
use mips.Prelude.{
  ℕ, zero, suc, ◌-◌, ◌<◌, ◌≤◌, ◌≡◌, ◌≢◌, refl, List, [], ◌∷◌, none, some, true, false, arith, All,
  All-get_elem?, length, get_elem?, inl, inr, Bool-cases,
}
use mips.Isa.{Instruction, ◌>>>◌}
use mips.Executable.Image.{
  Executable, Segments, segment_end, end_from, end, holds, get_from, get, address_in_use,
}

-- What holds of every instruction of every segment holds of what `Get` returns.
pub get-all {ℓ} :
    (P : Instruction → Type ℓ) (segments : Segments) (addr : ℕ) {i : Instruction}
    → All (λ seg. All P seg.1) segments
    → get_from segments addr ≡ some i
    → P i
unfolding get_from
get-all P [] addr all h = absurd (cc)
get-all P ((seg_start, insts) ∷ rest) addr all h =
    elim (Bool-cases (holds addr (seg_start, insts))) [
      | inl here ↦ All-get_elem? P insts ((addr - seg_start) >>> 2) all.0 (rw here at h)
      | inr elsewhere ↦ get-all P rest addr all.1 (rw elsewhere at h)
    ]

-- The index of an address that a segment holds is within the segment.
pub holds-index_lt :
    (addr seg_start : ℕ) (insts : List Instruction)
    → holds addr (seg_start, insts) ≡ true
    → (addr - seg_start) >>> 2 < length insts
unfolding holds segment_end
holds-index_lt addr seg_start insts h = ground arith

end_from-ge : (last_addr : ℕ) (segments : Segments) → last_addr ≤ end_from last_addr segments
unfolding end_from
end_from-ge last_addr [] = omega arith
end_from-ge last_addr (seg ∷ rest) =
    ground (arith, end_from-ge last_addr rest, end_from-ge (segment_end seg) rest)

holds-lt-end :
    (addr last_addr : ℕ) (segments : Segments)
    → address_in_use segments addr ≡ true
    → addr < end_from last_addr segments
unfolding address_in_use end_from
holds-lt-end addr last_addr [] h = absurd (cc)
holds-lt-end addr last_addr (seg ∷ rest) h = ground (
  arith,
  end_from-ge last_addr rest,
  end_from-ge (segment_end seg) rest,
  holds-lt-end addr last_addr rest,
  holds-lt-end addr (segment_end seg) rest,
  holds-below addr seg,
)
  where
    holds-below : (a : ℕ) (s : ℕ × List Instruction) → holds a s ≡ true → a < segment_end s
    holds-below a (start, insts) p = unfold holds in ground arith

pub get-none :
    (segments : Segments) (addr : ℕ)
    → address_in_use segments addr ≡ false
    → get_from segments addr ≡ none
unfolding get_from address_in_use
get-none [] addr h = refl
get-none ((seg_start, insts) ∷ rest) addr h = ground (arith, get-none rest addr)

pub get_elem?-lt : {A : Type 0} (xs : List A) (i : ℕ) → i < length xs → get_elem? xs i ≢ none
get_elem?-lt [] i h p = absurd (omega (arith, h))
get_elem?-lt (x ∷ xs) zero h p = absurd (cc)
get_elem?-lt (x ∷ xs) (suc i) h p = get_elem?-lt xs i (omega (arith, h)) p

pub get-some :
    (segments : Segments) (addr : ℕ)
    → address_in_use segments addr ≡ true
    → get_from segments addr ≢ none
unfolding get_from address_in_use
get-some [] addr h p = absurd (cc)
get-some ((seg_start, insts) ∷ rest) addr h p = elim (Bool-cases (holds addr (seg_start, insts))) [
  | inl here ↦
      get_elem?-lt insts ((addr - seg_start) >>> 2) (holds-index_lt addr seg_start insts here)
        (rw here at p)
  | inr elsewhere ↦ get-some rest addr (rw elsewhere at h) (rw elsewhere at p)
]

-- `Get` finds an instruction at an address exactly when `addressInUse` says that it is in use.
pub get-address_in_use :
    (e : Executable) (addr : ℕ) → (get e addr ≢ none) ↔ (address_in_use e.segments addr ≡ true)
unfolding get
get-address_in_use e addr = (
  λ found. elim (Bool-cases (address_in_use e.segments addr)) [
    | inl used ↦ used
    | inr free ↦ absurd (found (get-none e.segments addr free))
  ],
  get-some e.segments addr,
)

-- `Get` finds nothing at `End` or past it.
pub get-end : (e : Executable) (addr : ℕ) → end e ≤ addr → get e addr ≡ none
unfolding get end
get-end e addr h = get-none e.segments addr (elim (Bool-cases (address_in_use e.segments addr)) [
  | inl used ↦ absurd (omega (arith, holds-lt-end addr 0 e.segments used))
  | inr free ↦ free
])
