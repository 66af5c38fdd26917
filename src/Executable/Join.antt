-- ===== src/Executable/Join.antt =====
-- `joinContiguousSegments`, `sortedSegmentAddresses` and, with them, the whole of `ParseExecutable`.
use mips.Prelude.{
  ℕ, ◌*◌, List, [], ◌∷◌, ◌++◌, Bool, leb, ◌==◌, if◌then◌else◌, length, insert, remove,
}
use mips.Isa.{Result, ok, ◌>>=◌, u32, add32}
use mips.Assembly.Token.{TokenizedLine}
use mips.Executable.Image.{Segments, Executable}
use mips.Executable.Parse.{segment_at, nothing_built, parse_lines}

-- `sort.Sort` on addresses: any sorting algorithm gives this list
abbrev pub insert_address : ℕ → List ℕ → List ℕ
insert_address a [] = a ∷ []
insert_address a (b ∷ l) = if leb a b then a ∷ b ∷ l else b ∷ insert_address a l

abbrev pub sort_addresses : List ℕ → List ℕ
sort_addresses [] = []
sort_addresses (a ∷ l) = insert_address a (sort_addresses l)

abbrev pub addresses_of : Segments → List ℕ
addresses_of [] = []
addresses_of (seg ∷ rest) = seg.0 ∷ addresses_of rest

unfoldable pub sorted_segment_addresses : Segments → List ℕ
sorted_segment_addresses segs = sort_addresses (addresses_of segs)

-- segStart+size == l[i+1]
unfoldable pub is_contiguous : ℕ → ℕ → Segments → Bool
is_contiguous seg_start next segs =
    add32 seg_start (u32 (length (segment_at seg_start segs) * 4)) == next

-- e.Segments[segStart] = append(…); delete(e.Segments, l[i+1])
unfoldable pub merge : ℕ → ℕ → Segments → Segments
merge seg_start next segs =
    remove next (insert seg_start (segment_at seg_start segs ++ segment_at next segs) segs)

-- The loop, from the index on. Where two segments are joined, `copy(l[i:], l[i+1:])` takes the
-- address of the first from the list, and the index stays: in both cases the loop goes on at the
-- second.
unfoldable pub join_from : List ℕ → Segments → Segments
unfolding is_contiguous merge
join_from (seg_start ∷ next ∷ l) segs =
    join_from (next ∷ l)
      (if is_contiguous seg_start next segs then merge seg_start next segs else segs)
join_from _ segs = segs

unfoldable pub join_contiguous_segments : Segments → Segments
unfolding join_from sorted_segment_addresses
join_contiguous_segments segs = join_from (sorted_segment_addresses segs) segs

unfoldable pub parse_executable : List TokenizedLine → Result Executable
unfolding parse_lines join_contiguous_segments
parse_executable lines = do
  b ← parse_lines lines nothing_built
  ok (record { segments = join_contiguous_segments b.segments; symbols = b.symbols })
