-- ===== src/Executable/Top.antt =====
-- The end of segments that do not overlap.
use mips.Prelude.{
  ℕ, ◌+◌, ◌-◌, ◌%◌, ◌^◌, ◌≤◌, ◌≡◌, ◌≢◌, refl, List, [], ◌∷◌, none, true, arith, All, inl, inr, ◌⊎◌,
  ltb, Bool-cases, ◌||◌,
}
use mips.Isa.{Instruction}
use mips.Executable.Image.{
  Executable, Segments, segment_end, end_from, end, holds, get, address_in_use,
}
use mips.Executable.Lookup.{get-some}
use mips.Executable.Ranges.{IsSegment}

-- where the last segment ends, against a lower bound
record IsTop (low : ℕ) (segs : Segments) (top : ℕ) : Type 0 where
  aligned : top % 4 ≡ 0
  room : top + 4 ≤ 2 ^ 32
  reached : (top ≡ low) ⊎ ((4 ≤ top) × (address_in_use segs (top - 4) ≡ true))

segment_end_lem :
    (seg : ℕ × List Instruction)
    → IsSegment seg
    → (segment_end seg % 4 ≡ 0)
      × (segment_end seg + 4 ≤ 2 ^ 32)
      × (4 ≤ segment_end seg)
      × (holds (segment_end seg - 4) seg ≡ true)
unfolding segment_end holds
segment_end_lem seg v = (
  omega (arith, v.aligned, v.below_top),
  omega (arith, v.aligned, v.below_top),
  omega (arith, v.filled, v.below_top),
  ground (arith, v.filled, v.below_top),
)

end_from-IsTop :
    (low : ℕ) (segs : Segments)
    → low % 4 ≡ 0
    → low + 4 ≤ 2 ^ 32
    → All IsSegment segs
    → IsTop low segs (end_from low segs)
unfolding end_from address_in_use
end_from-IsTop low [] aligned room all = record {
  aligned = aligned;
  room = room;
  reached = inl refl;
}
end_from-IsTop low (seg ∷ rest) aligned room all = elim (Bool-cases (ltb low (segment_end seg))) [
  | inl higher ↦
      let (end_aligned, end_room, end_high, end_held) = segment_end_lem seg all.0 in
      let top = end_from-IsTop (segment_end seg) rest end_aligned end_room all.1 in
      rw higher (record {
        aligned = top.aligned;
        room = top.room;
        reached = elim top.reached [
          | inl same ↦ inr (rw same end_high, rw same (rw end_held refl))
          | inr later ↦ inr (later.0, held_later seg rest _ later.1)
        ];
      })
  | inr lower ↦
      let top = end_from-IsTop low rest aligned room all.1 in
      rw lower (record {
        aligned = top.aligned;
        room = top.room;
        reached = elim top.reached [
          | inl same ↦ inl same
          | inr later ↦ inr (later.0, held_later seg rest _ later.1)
        ];
      })
]
  where
    held_later :
        (s : ℕ × List Instruction) (others : Segments) (addr : ℕ)
        → address_in_use others addr ≡ true
        → (holds addr s || address_in_use others addr) ≡ true
    held_later s others addr h = ground (arith, h)

-- The end is the address of a word, and leaves room for a word below the top. It is 0, or the word
-- below it is there.
pub end-IsSegment :
    (e : Executable)
    → All IsSegment e.segments
    → (end e % 4 ≡ 0)
      × (end e + 4 ≤ 2 ^ 32)
      × ((end e ≡ 0) ⊎ ((4 ≤ end e) × (get e (end e - 4) ≢ none)))
unfolding end get
end-IsSegment e all =
    let top = end_from-IsTop 0 e.segments refl (omega arith) all in
    (
      top.aligned,
      top.room,
      elim top.reached [
        | inl zero ↦ inl zero
        | inr last ↦ inr (last.0, get-some e.segments (end_from 0 e.segments - 4) last.1)
      ],
    )
