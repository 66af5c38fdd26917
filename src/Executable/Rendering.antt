-- ===== src/Executable/Rendering.antt =====
-- What the lines of a rendered executable mean, as a source.
use mathlib.Core.List.{append-nil, append_assoc}
use mips.Prelude.{
  ℕ, ◌≡◌, ◌≢◌, refl, sym, ap, ◌∙◌, subst, List, [], ◌∷◌, ◌++◌, none, true, arith, All, inl, inr,
  Bool-cases, leb, ◌==◌, ==_iff, lookup,
}
use mips.Isa.{Instruction, ok, ok-injective, bind-ok}
use mips.Coding.Target.{SymbolTable}
use mips.Assembly.Token.{TokenizedLine}
use mips.Executable.Image.{Segments, Executable}
use mips.Executable.Parse.{segment_at}
use mips.Executable.Join.{insert_address, sort_addresses, addresses_of, sorted_segment_addresses}
use mips.Executable.Render.{
  Rendering, declare_below, render_instructions, start_segment, render_segments, declare_rest,
  or_zero, sorted_symbol_addr_pairs, render_executable,
}
use mips.Executable.Source.{image, labels}
use mips.Executable.Contents.{segment_at-All}
use mips.Executable.Rendered.{
  Means, read_back, segment_words, words_of_segments, declare_below-Means, declare_rest-Means,
  text-Means, render_instructions-Means,
}

declare_below-zero : (left : SymbolTable) (r : Rendering) → declare_below 0 left r ≡ r
unfolding declare_below
declare_below-zero [] r = refl
declare_below-zero (s ∷ rest) r = ground arith

start_segment-Means :
    (all : SymbolTable) (words : List (ℕ × Instruction)) (segment : ℕ) (r : Rendering)
    → Means all words r
    → (segment ≡ 0 → r.current_address ≡ 0)
    → Means all words (start_segment segment r)
      × ((start_segment segment r).current_address ≡ segment)
unfolding start_segment
start_segment-Means all words segment r m home = elim (Bool-cases (segment == 0)) [
  | inr elsewhere ↦ rw elsewhere (
    text-Means all words (declare_below segment r.symbols_left r)
        (declare_below-Means all words segment r.symbols_left r refl m) segment,
    refl,
  )
  | inl zero ↦
      let is_zero : segment ≡ 0 = (==_iff segment 0).0 zero in
      let settled : Means all words (record r { current_address = 0 }) = record {
        leads = m.leads ∙ home is_zero;
        declared = m.declared;
        placed = m.placed;
      } in
      (
        subst (λ a. Means all words (start_segment a r)) (sym is_zero)
            (subst (λ (x : Rendering). Means all words (record x { current_address = 0 }))
              (sym (declare_below-zero r.symbols_left r)) settled),
        refl,
      )
]

-- Only the first segment may start at 0, and then the rendering is there.
abbrev StartsAt : List ℕ → ℕ → Type 0
StartsAt [] current = Unit
StartsAt (a ∷ rest) current = (a ≡ 0 → current ≡ 0) × All (λ b. b ≢ 0) rest

later-StartsAt : (l : List ℕ) (current : ℕ) → All (λ b. b ≢ 0) l → StartsAt l current
later-StartsAt [] current h = tt
later-StartsAt (a ∷ rest) current h = (λ p. absurd (h.0 p), h.1)

render_segments-Means :
    (all : SymbolTable) (l : List ℕ) (segs : Segments) (words : List (ℕ × Instruction))
    (r final : Rendering)
    → All (λ seg. All (λ i. read_back i ≢ none) seg.1) segs
    → StartsAt l r.current_address
    → Means all words r
    → render_segments l segs r ≡ ok final
    → Means all (words ++ words_of_segments l segs) final
unfolding render_segments
render_segments-Means all [] segs words r final reads starts m h =
    subst (Means all (words ++ [])) (ok-injective r final h)
      (subst (λ w. Means all w r) (sym (append-nil words)) m)
render_segments-Means all (a ∷ rest) segs words r final reads starts m h =
    let (m1, here) = start_segment-Means all words a r m starts.0 in
    let (next, first, others) =
      bind-ok (render_instructions (segment_at a segs) (start_segment a r))
        (render_segments rest segs) final h in
    let m2 =
      render_instructions-Means all (segment_at a segs) words (start_segment a r) next m1
        (segment_at-All (λ i. read_back i ≢ none) a segs reads) first in
    subst (λ w. Means all w final)
      (append_assoc words (segment_words a (segment_at a segs)) (words_of_segments rest segs))
      (render_segments-Means all rest segs (words ++ segment_words a (segment_at a segs)) next final
        reads (later-StartsAt rest next.current_address starts.1) m2 others)

-- The keys of a map are distinct.
abbrev pub IsMap : Segments → Type 0
IsMap [] = Unit
IsMap (seg ∷ rest) = (lookup seg.0 rest ≡ none) × IsMap rest

insert_address-nonzero :
    (a : ℕ) (l : List ℕ) → a ≢ 0 → All (λ b. b ≢ 0) l → All (λ b. b ≢ 0) (insert_address a l)
insert_address-nonzero a [] h all = (h, tt)
insert_address-nonzero a (b ∷ l) h all = elim (Bool-cases (leb a b)) [
  | inl le ↦ rw le (h, all)
  | inr gt ↦ rw gt (all.0, insert_address-nonzero a l h all.1)
]

insert_zero-StartsAt : (l : List ℕ) → All (λ b. b ≢ 0) l → StartsAt (insert_address 0 l) 0
insert_zero-StartsAt [] all = (λ _. refl, tt)
insert_zero-StartsAt (b ∷ l) all =
    let least : leb 0 b ≡ true = ground arith in rw least (λ _. refl, all)

insert_address-StartsAt :
    (a : ℕ) (l : List ℕ) → a ≢ 0 → StartsAt l 0 → StartsAt (insert_address a l) 0
insert_address-StartsAt a [] h starts = (λ _. refl, tt)
insert_address-StartsAt a (b ∷ l) h starts = elim (Bool-cases (leb a b)) [
  | inl le ↦ rw le (λ _. refl, (λ zero. h (ground (arith, le, zero)), starts.1))
  | inr gt ↦ rw gt (λ _. refl, insert_address-nonzero a l h starts.1)
]

sort_nonzero :
    (segs : Segments) → lookup 0 segs ≡ none → All (λ b. b ≢ 0) (sort_addresses (addresses_of segs))
sort_nonzero [] h = tt
sort_nonzero (seg ∷ rest) h = elim (Bool-cases (seg.0 == 0)) [
  | inl zero ↦ let q = rw zero at h in absurd (cc)
  | inr other ↦
      insert_address-nonzero seg.0 (sort_addresses (addresses_of rest))
        (λ p. ground (arith, other, p)) (sort_nonzero rest (rw other at h))
]

sort_addresses-StartsAt :
    (segs : Segments) → IsMap segs → StartsAt (sort_addresses (addresses_of segs)) 0
sort_addresses-StartsAt [] h = tt
sort_addresses-StartsAt (seg ∷ rest) h = elim (Bool-cases (seg.0 == 0)) [
  | inl zero ↦
      let p : seg.0 ≡ 0 = (==_iff seg.0 0).0 zero in
      subst (λ a. StartsAt (insert_address a (sort_addresses (addresses_of rest))) 0) (sym p)
        (insert_zero-StartsAt (sort_addresses (addresses_of rest))
          (sort_nonzero rest (subst (λ a. lookup a rest ≡ none) p h.0)))
  | inr other ↦
      insert_address-StartsAt seg.0 (sort_addresses (addresses_of rest))
        (λ p. ground (arith, other, p)) (sort_addresses-StartsAt rest h.1)
]

or_zero-StartsAt : (l : List ℕ) → StartsAt l 0 → StartsAt (or_zero l) 0
or_zero-StartsAt [] h = (λ _. refl, tt)
or_zero-StartsAt (a ∷ l) h = h

or_zero-insert_address : (a : ℕ) (l : List ℕ) → or_zero (insert_address a l) ≡ insert_address a l
or_zero-insert_address a [] = refl
or_zero-insert_address a (b ∷ l) = elim (Bool-cases (leb a b)) [
  | inl le ↦ rw le refl
  | inr gt ↦ rw gt refl
]

words-or_zero :
    (segs : Segments)
    → words_of_segments (or_zero (sort_addresses (addresses_of segs))) segs
      ≡ words_of_segments (sort_addresses (addresses_of segs)) segs
words-or_zero [] = refl
words-or_zero (seg ∷ rest) =
    ap (λ l. words_of_segments l (seg ∷ rest))
      (or_zero-insert_address seg.0 (sort_addresses (addresses_of rest)))

-- If an executable is rendered, its segments have distinct addresses and each of its instructions
-- is rendered as a line that is read as an instruction, then the lines mean the executable: they
-- declare its symbols in the order of their addresses, each at its own address and no others, and
-- they place what its instructions are read back as at the addresses of these instructions, segment
-- by segment in the order of the addresses.
pub render_executable-Means :
    (e : Executable) (lines : List TokenizedLine)
    → IsMap e.segments
    → All (λ seg. All (λ i. read_back i ≢ none) seg.1) e.segments
    → render_executable e ≡ ok lines
    → (labels lines 0 ≡ sorted_symbol_addr_pairs e)
      × (image lines 0 ≡ words_of_segments (sorted_segment_addresses e.segments) e.segments)
unfolding render_executable sorted_segment_addresses image labels
render_executable-Means e lines distinct reads h =
    let all = sorted_symbol_addr_pairs e in
    let l = or_zero (sort_addresses (addresses_of e.segments)) in
    let nothing : Means all [] (record { list = []; symbols_left = all; current_address = 0 }) =
      record { leads = refl; declared = refl; placed = refl } in
    let (r, rendered, finished) = bind-ok (render_segments l e.segments _) _ lines h in
    let m =
      render_segments-Means all l e.segments [] _ r reads
        (or_zero-StartsAt (sort_addresses (addresses_of e.segments))
          (sort_addresses-StartsAt e.segments distinct))
        nothing rendered in
    let (m1, none_left) = declare_rest-Means all _ r.symbols_left r refl m in
    subst
      (λ ls.
        (labels ls 0 ≡ all)
        × (image ls 0 ≡ words_of_segments (sort_addresses (addresses_of e.segments)) e.segments))
      (ok-injective _ lines finished)
      (
        sym (append-nil _)
            ∙ ap (λ s. labels (declare_rest r.symbols_left r).list 0 ++ s) (sym none_left)
            ∙ m1.declared,
        m1.placed ∙ words-or_zero e.segments,
      )
