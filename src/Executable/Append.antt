-- ===== src/Executable/Append.antt =====
-- An instruction behind the end of a segment: `append(res.Segments[segmentStart], inst)`.
use mips.Prelude.{
  ℕ, ◌+◌, ◌*◌, ◌%◌, ◌^◌, ◌<◌, ◌≤◌, ◌≡◌, sym, ap, ◌∙◌, List, [], ◌∷◌, ◌++◌, some, none, false, arith,
  All-insert, length, length-append, ◌==◌, ==_iff, if◌then◌else◌, ◌or_try◌, insert,
}
use mips.Isa.{Instruction}
use mips.Executable.Image.{Segments, get_from, address_in_use}
use mips.Executable.Lookup.{get-none}
use mips.Executable.Parse.{segment_at}
use mips.Executable.Holders.{
  one, holders, found, found-none, holders-none, none-holders, holders-remove, holders-insert,
  get_from-remove, get_from-insert,
}
use mips.Executable.Ranges.{IsSegment, word_of, one-append, found-append, one_word, holders-word_of}
use mips.Executable.Joining.{IsLaidOut}

module _ (segs : Segments) (start addr_of_new : ℕ) (i : Instruction) (v : IsLaidOut segs)
    (start_aligned : start % 4 ≡ 0) (free : address_in_use segs addr_of_new ≡ false)
    (at_end : addr_of_new ≡ start + 4 * length (segment_at start segs))
    (room : addr_of_new + 4 < 2 ^ 32) where
  abbrev seg : List Instruction
  seg = segment_at start segs

  abbrev appended : Segments
  appended = insert start (seg ++ i ∷ []) segs

  free_word : (addr : ℕ) → addr_of_new ≡ word_of addr → holders segs addr ≡ 0
  free_word addr p =
      holders-word_of segs addr v.segment
      ∙ ap (holders segs) (sym p)
      ∙ none-holders segs addr_of_new (get-none segs addr_of_new free)

  one_appended :
      (addr : ℕ)
      → one start (seg ++ i ∷ []) addr
        ≡ one start seg addr + (if addr_of_new == word_of addr then 1 else 0)
  one_appended addr =
      one-append start seg (i ∷ []) addr (omega arith)
      ∙ ap (λ a. one start seg addr + one a (i ∷ []) addr) (sym at_end)
      ∙ ap (λ n. one start seg addr + n) (one_word addr_of_new i addr (omega arith) room).0

  found_appended :
      (addr : ℕ)
      → found start (seg ++ i ∷ []) addr
        ≡ (found start seg addr or_try (if addr_of_new == word_of addr then some i else none))
  found_appended addr =
      found-append start seg (i ∷ []) addr (omega arith)
      ∙ ap (λ a. found start seg addr or_try found a (i ∷ []) addr) (sym at_end)
      ∙ ap (λ f. found start seg addr or_try f) (one_word addr_of_new i addr (omega arith) room).1

  holders-append :
      (addr : ℕ)
      → holders appended addr ≡ holders segs addr + (if addr_of_new == word_of addr then 1 else 0)
  holders-append addr = omega (
    arith,
    holders-insert segs start (seg ++ i ∷ []) addr,
    one_appended addr,
    holders-remove segs start addr,
  )

  apart : (addr : ℕ) → holders appended addr ≤ 1
  apart addr = ground (arith, holders-append addr, free_word addr, v.apart addr)

  pub append-IsLaidOut : IsLaidOut appended
  append-IsLaidOut = record {
    segment = All-insert IsSegment segs start (seg ++ i ∷ []) v.segment (record {
      aligned = start_aligned;
      filled = omega (arith, length-append seg (i ∷ []));
      below_top = omega (arith, length-append seg (i ∷ []));
    });
    apart = apart;
  }

  pub get_from-append :
      (addr : ℕ)
      → get_from appended addr
        ≡ (get_from segs addr or_try (if addr_of_new == word_of addr then some i else none))
  get_from-append addr = ground (
    arith,
    get_from-insert segs start (seg ++ i ∷ []) addr (apart addr),
    found_appended addr,
    get_from-remove segs start addr (v.apart addr),
    free_word addr,
    holders-remove segs start addr,
    found-none start seg addr,
    ==_iff addr_of_new (word_of addr),
    holders-none segs addr,
  )
