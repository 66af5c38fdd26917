-- ===== src/Executable/Refines.antt =====
-- The executable of a source against the flat list of its instructions, and of its labels.
use mips.Prelude.{
  ℕ, ◌+◌, ◌*◌, ◌%◌, ◌^◌, ◌<◌, ◌≡◌, refl, sym, ap, ◌∙◌, subst, List, [], ◌∷◌, Option, some, none,
  false, arith, All, All-lookup, length, length-append, inl, inr, Option-cases, ◌or_try◌,
  or_try-none, lookup,
}
use mips.Isa.{Instruction, ok, ok-injective, bind-ok}
use mips.Assembly.Token.{TokenizedLine}
use mips.Assembly.Lines.{line_instruction}
use mips.Executable.Image.{Segments, Executable, get_from, get, holds, segment_end, address_in_use}
use mips.Executable.Lookup.{get-none}
use mips.Executable.Parse.{
  Building, nothing_built, segment_at, append_instruction, parse_line, parse_lines,
}
use mips.Executable.Join.{parse_executable}
use mips.Executable.Holders.{one, holders, none-holders, holders-remove, segment_at-insert}
use mips.Executable.Ranges.{IsSegment, word_of}
use mips.Executable.Joining.{IsLaidOut, join_contiguous_segments-Agrees}
use mips.Executable.Append.{append-IsLaidOut, get_from-append}
use mips.Executable.Source.{instruction_in, address_after, with_word, image}
use mips.Executable.Effect.{Effect, placed, moved, labelled, kept, parse_line-Effect}

-- The next instruction goes behind the end of the segment, unless its address is in use.
pub record IsReady (b : Building) : Type 0 where
  laid_out : IsLaidOut b.segments
  start_aligned : b.segment_start % 4 ≡ 0
  pub addr_aligned : b.instruction_addr % 4 ≡ 0
  position :
      address_in_use b.segments b.instruction_addr ≡ false
      → b.instruction_addr ≡ b.segment_start + 4 * length (segment_at b.segment_start b.segments)

abbrev pub HasRoom : ℕ × Instruction → Type 0
HasRoom word = word.0 + 4 < 2 ^ 32

abbrev word_in : TokenizedLine → Option Instruction
word_in line = instruction_in (line_instruction line)

pub address_after-Effect :
    {line : TokenizedLine} {b next : Building}
    → Effect line b next
    → next.instruction_addr ≡ address_after line b.instruction_addr
unfolding append_instruction
address_after-Effect (placed i is_inst no_label free) = rw (is_inst, address_after) refl
address_after-Effect (moved c no_inst to no_label even) = rw (no_inst, address_after) (rw to refl)
address_after-Effect (labelled s no_inst stay is_label new) =
    rw (no_inst, address_after) (rw stay refl)
address_after-Effect (kept no_inst stay no_label) = rw (no_inst, address_after) (rw stay refl)

one-start :
    (start : ℕ) (insts : List Instruction) → IsSegment (start, insts) → one start insts start ≡ 1
unfolding one holds segment_end
one-start start insts v = ground (arith, v.filled, v.below_top)

-- A free address is the start of no segment.
free_start :
    (segs : Segments) (c : ℕ)
    → IsLaidOut segs
    → address_in_use segs c ≡ false
    → segment_at c segs ≡ []
free_start segs c v free = elim (Option-cases (lookup c segs)) [
  | inl absent ↦ rw absent refl
  | inr (insts, present) ↦
      let filled = one-start c insts (All-lookup IsSegment segs c v.segment present) in
      let here = rw present at (holders-remove segs c c) in
      absurd (omega (arith, here, filled, none-holders segs c (get-none segs c free)))
]

record Advanced (line : TokenizedLine) (b next : Building) : Type 0 where
  ready : IsReady next
  got :
      (addr : ℕ)
      → get_from next.segments addr ≡ (
          get_from b.segments addr
          or_try lookup (word_of addr) (with_word (word_in line) b.instruction_addr []))

-- A line without a word leaves the segments alone.
kept-got :
    (line : TokenizedLine) (segs : Segments) (ia addr : ℕ)
    → line_instruction line ≡ none
    → get_from segs addr
      ≡ (get_from segs addr or_try lookup (word_of addr) (with_word (word_in line) ia []))
kept-got line segs ia addr no_inst = rw (no_inst, word_in) (or_try-none (get_from segs addr))

Effect-Advanced :
    {line : TokenizedLine} {b next : Building}
    → IsReady b
    → All HasRoom (with_word (word_in line) b.instruction_addr [])
    → Effect line b next
    → Advanced line b next
unfolding append_instruction
Effect-Advanced {line} {b} ready room (placed i is_inst no_label free) =
    let at_end = ready.position free in
    let fits : b.instruction_addr + 4 < 2 ^ 32 = (rw (is_inst, word_in) at room).0 in
    record {
      ready = record {
        laid_out =
            append-IsLaidOut b.segments b.segment_start b.instruction_addr i ready.laid_out
              ready.start_aligned free at_end fits;
        start_aligned = ready.start_aligned;
        addr_aligned = omega (arith, ready.addr_aligned);
        position = λ _. omega (
          arith,
          ap length (segment_at-insert b.segments b.segment_start _),
          length-append (segment_at b.segment_start b.segments) (i ∷ []),
        );
      };
      got = λ addr.
          rw (is_inst, word_in)
            (get_from-append b.segments b.segment_start b.instruction_addr i ready.laid_out
              ready.start_aligned free at_end fits addr);
    }
Effect-Advanced {line} {b} ready room (moved c no_inst to no_label even) = record {
  ready = record {
    laid_out = ready.laid_out;
    start_aligned = even;
    addr_aligned = even;
    position = λ free. omega (arith, ap length (free_start b.segments c ready.laid_out free));
  };
  got = λ addr. kept-got line b.segments b.instruction_addr addr no_inst;
}
Effect-Advanced {line} {b} ready room (labelled s no_inst stay is_label new) = record {
  ready = record {
    laid_out = ready.laid_out;
    start_aligned = ready.start_aligned;
    addr_aligned = ready.addr_aligned;
    position = ready.position;
  };
  got = λ addr. kept-got line b.segments b.instruction_addr addr no_inst;
}
Effect-Advanced {line} {b} ready room (kept no_inst stay no_label) = record {
  ready = ready;
  got = λ addr. kept-got line b.segments b.instruction_addr addr no_inst;
}

lookup-with_word :
    (k ia : ℕ) (word : Option Instruction) (rest : List (ℕ × Instruction)) (o : Option Instruction)
    → ((o or_try lookup k (with_word word ia [])) or_try lookup k rest)
      ≡ (o or_try lookup k (with_word word ia rest))
lookup-with_word k ia word rest (some i) = refl
lookup-with_word k ia none rest none = refl
lookup-with_word k ia (some i) rest none = ground arith

All-with_word :
    (word : Option Instruction) (ia : ℕ) (rest : List (ℕ × Instruction))
    → All HasRoom (with_word word ia rest)
    → All HasRoom (with_word word ia []) × All HasRoom rest
All-with_word none ia rest h = (tt, h)
All-with_word (some i) ia rest h = ((h.0, tt), h.1)

pub record Built (lines : List TokenizedLine) (b final : Building) : Type 0 where
  pub ready : IsReady final
  pub got :
      (addr : ℕ)
      → get_from final.segments addr
        ≡ (get_from b.segments addr or_try lookup (word_of addr) (image lines b.instruction_addr))

pub parse_lines-Built :
    (lines : List TokenizedLine) (b final : Building)
    → IsReady b
    → All HasRoom (image lines b.instruction_addr)
    → parse_lines lines b ≡ ok final
    → Built lines b final
unfolding parse_lines image
parse_lines-Built [] b final ready room h =
    subst (Built [] b) (ok-injective b final h)
      (record { ready = ready; got = λ addr. or_try-none (get_from b.segments addr) })
parse_lines-Built (line ∷ rest) b final ready room h =
    let (next, first, others) = bind-ok (parse_line line b) (parse_lines rest) final h in
    let effect = parse_line-Effect line b next first in
    let moves = address_after-Effect effect in
    let after = address_after line b.instruction_addr in
    let (here, later) = All-with_word (word_in line) b.instruction_addr (image rest after) room in
    let step = Effect-Advanced ready here effect in
    let built =
      parse_lines-Built rest next final step.ready
        (subst (λ a. All HasRoom (image rest a)) (sym moves) later) others in
    record {
      ready = built.ready;
      got = λ addr.
          built.got addr
          ∙ ap (λ a. get_from next.segments addr or_try lookup (word_of addr) (image rest a)) moves
          ∙ ap (λ g. g or_try lookup (word_of addr) (image rest after)) (step.got addr)
          ∙ lookup-with_word (word_of addr) b.instruction_addr (word_in line) (image rest after)
              (get_from b.segments addr);
    }

pub nothing_built-IsReady : IsReady nothing_built
nothing_built-IsReady = record {
  laid_out = record { segment = tt; apart = λ addr. unfold holders in omega arith };
  start_aligned = refl;
  addr_aligned = refl;
  position = λ _. refl;
}

-- If a source is accepted, and each of its instructions stands at an address `a` with
-- `a + 4 < 2 ^ 32`, then its executable has segments that do not overlap, each at the address of a
-- word, and `Get` finds at every address the instruction that the source puts at the address's
-- word, or nothing if there is none.
pub get-parse_executable :
    (lines : List TokenizedLine) (exe : Executable)
    → parse_executable lines ≡ ok exe
    → All HasRoom (image lines 0)
    → IsLaidOut exe.segments × ((addr : ℕ) → get exe addr ≡ lookup (word_of addr) (image lines 0))
unfolding parse_executable get get_from
get-parse_executable lines exe h room =
    let (b, parsed, joined) = bind-ok (parse_lines lines nothing_built) _ exe h in
    let built = parse_lines-Built lines nothing_built b nothing_built-IsReady room parsed in
    let seen = join_contiguous_segments-Agrees b.segments built.ready.laid_out in
    subst
      (λ (e : Executable).
        IsLaidOut e.segments
        × ((addr : ℕ) → get_from e.segments addr ≡ lookup (word_of addr) (image lines 0)))
      (ok-injective _ exe joined) (seen.laid_out, λ addr. seen.same addr ∙ built.got addr)
