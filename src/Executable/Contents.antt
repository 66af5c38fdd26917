-- ===== src/Executable/Contents.antt =====
-- What holds of the instructions of all lines holds of those of the executable.
use mips.Prelude.{
  ℕ, ◌≡◌, subst, List, [], ◌∷◌, ◌++◌, some, All, All-lookup, All-insert, All-remove, inl, inr,
  Option-cases, Bool-cases, lookup, ap,
}
use mips.Isa.{Instruction, ok, ok-injective, bind-ok}
use mips.Assembly.Token.{TokenizedLine}
use mips.Assembly.Lines.{line_instruction}
use mips.Executable.Image.{Segments, Executable}
use mips.Executable.Parse.{
  Building, nothing_built, segment_at, append_instruction, parse_line, parse_lines,
}
use mips.Executable.Join.{
  is_contiguous, merge, join_from, join_contiguous_segments, sorted_segment_addresses,
  parse_executable,
}
use mips.Executable.Source.{instruction_in}
use mips.Executable.Effect.{Effect, placed, moved, labelled, kept, parse_line-Effect}

-- what holds of two lists holds of both in a row
All-append :
    (P : Instruction → Type 0) (xs ys : List Instruction) → All P xs → All P ys → All P (xs ++ ys)
All-append P [] ys h k = k
All-append P (x ∷ xs) ys h k = (h.0, All-append P xs ys h.1 k)

module _ (P : Instruction → Type 0) where
  abbrev pub AllSegments : Segments → Type 0
  AllSegments segs = All (λ seg. All P seg.1) segs

  pub segment_at-All : (a : ℕ) (segs : Segments) → AllSegments segs → All P (segment_at a segs)
  segment_at-All a segs h = elim (Option-cases (lookup a segs)) [
    | inl absent ↦ rw absent tt
    | inr (insts, present) ↦ rw present (All-lookup (λ seg. All P seg.1) segs a h present)
  ]

  -- the instruction of a line, if it has one
  abbrev pub AllLine : TokenizedLine → Type 0
  AllLine line = (i : Instruction) → instruction_in (line_instruction line) ≡ some i → P i

  append_instruction-AllSegments :
      (i : Instruction) (b : Building)
      → P i
      → AllSegments b.segments
      → AllSegments (append_instruction i b).segments
  unfolding append_instruction
  append_instruction-AllSegments i b p h =
      All-insert (λ seg. All P seg.1) b.segments b.segment_start _ h
        (All-append P (segment_at b.segment_start b.segments) (i ∷ [])
          (segment_at-All b.segment_start b.segments h) (p, tt))

  Effect-AllSegments :
      (line : TokenizedLine) (b next : Building)
      → Effect line b next
      → AllLine line
      → AllSegments b.segments
      → AllSegments next.segments
  Effect-AllSegments line b _ (placed i is_inst _ _) p h =
      append_instruction-AllSegments i b (p i (ap instruction_in is_inst)) h
  Effect-AllSegments line b _ (moved c _ _ _ _) p h = h
  Effect-AllSegments line b _ (labelled sym _ _ _ _) p h = h
  Effect-AllSegments line b _ (kept _ _ _) p h = h

  parse_lines-AllSegments :
      (lines : List TokenizedLine) (b final : Building)
      → All AllLine lines
      → AllSegments b.segments
      → parse_lines lines b ≡ ok final
      → AllSegments final.segments
  unfolding parse_lines
  parse_lines-AllSegments [] b final p h parsed =
      subst (λ (x : Building). AllSegments x.segments) (ok-injective b final parsed) h
  parse_lines-AllSegments (line ∷ rest) b final p h parsed =
      let (next, first, others) = bind-ok (parse_line line b) (parse_lines rest) final parsed in
      parse_lines-AllSegments rest next final p.1
        (Effect-AllSegments line b next (parse_line-Effect line b next first) p.0 h) others

  merge-AllSegments :
      (a next : ℕ) (segs : Segments) → AllSegments segs → AllSegments (merge a next segs)
  unfolding merge
  merge-AllSegments a next segs h =
      All-remove (λ seg. All P seg.1) _ next
        (All-insert (λ seg. All P seg.1) segs a _ h
          (All-append P (segment_at a segs) (segment_at next segs) (segment_at-All a segs h)
            (segment_at-All next segs h)))

  join_from-AllSegments :
      (l : List ℕ) (segs : Segments) → AllSegments segs → AllSegments (join_from l segs)
  unfolding join_from
  join_from-AllSegments [] segs h = h
  join_from-AllSegments (a ∷ []) segs h = h
  join_from-AllSegments (a ∷ next ∷ l) segs h = elim (Bool-cases (is_contiguous a next segs)) [
    | inl joined ↦
        rw (joined, join_from)
          (join_from-AllSegments (next ∷ l) (merge a next segs) (merge-AllSegments a next segs h))
    | inr apart ↦ rw (apart, join_from) (join_from-AllSegments (next ∷ l) segs h)
  ]

  -- What holds of the instruction of each line of an accepted source holds of each instruction of
  -- its executable.
  pub parse_executable-AllSegments :
      (lines : List TokenizedLine) (exe : Executable)
      → All AllLine lines
      → parse_executable lines ≡ ok exe
      → AllSegments exe.segments
  unfolding parse_executable join_contiguous_segments
  parse_executable-AllSegments lines exe p h =
      let (b, parsed, joined) = bind-ok (parse_lines lines nothing_built) _ exe h in
      subst (λ (x : Executable). AllSegments x.segments) (ok-injective _ exe joined)
        (join_from-AllSegments (sorted_segment_addresses b.segments) b.segments
          (parse_lines-AllSegments lines nothing_built b p tt parsed))
