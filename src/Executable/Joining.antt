-- ===== src/Executable/Joining.antt =====
-- Joining contiguous segments changes nothing that `Get` can see.
use mips.Prelude.{
  ℕ, ◌+◌, ◌*◌, ◌^◌, ◌<◌, ◌≤◌, ◌≡◌, ◌≢◌, refl, sym, ap, ◌∙◌, subst, List, [], ◌∷◌, ◌++◌, true, arith,
  leb, All, All-lookup, All-insert, All-remove, length, length-append, ==_iff, ◌or_try◌, inl, inr,
  Bool-cases, Option-cases, lookup, insert, remove, lookup-remove, remove-insert,
  remove-insert_self,
}
use mips.Isa.{add32, u32}
use mips.Executable.Image.{Segments, get_from}
use mips.Executable.Parse.{segment_at, instructions_of}
use mips.Executable.Join.{
  insert_address, sort_addresses, addresses_of, sorted_segment_addresses, is_contiguous, merge,
  join_from, join_contiguous_segments,
}
use mips.Executable.Holders.{
  one, holders, found, found-nil, found-none, holders-remove, holders-insert, get_from-remove,
  get_from-insert,
}
use mips.Executable.Ranges.{IsSegment, one-append, found-append}

-- Segments that do not overlap.
pub record IsLaidOut (segs : Segments) : Type 0 where
  pub segment : All IsSegment segs
  pub apart : (addr : ℕ) → holders segs addr ≤ 1

-- The same to `Get`.
pub record Agrees (segs other : Segments) : Type 0 where
  pub laid_out : IsLaidOut other
  pub same : (addr : ℕ) → get_from other addr ≡ get_from segs addr

remove_absent-Agrees :
    (segs : Segments) (a : ℕ)
    → IsLaidOut segs
    → segment_at a segs ≡ []
    → Agrees segs (remove a segs)
remove_absent-Agrees segs a v absent = record {
  laid_out = record {
    segment = All-remove IsSegment segs a v.segment;
    apart = λ addr. omega (arith, holders-remove segs a addr, v.apart addr);
  };
  same = λ addr. sym (
      get_from-remove segs a addr (v.apart addr)
      ∙ ap (λ l. found a l addr or_try get_from (remove a segs) addr) absent
      ∙ rw found-nil refl);
}

module _ (segs : Segments) (a b : ℕ) (v : IsLaidOut segs)
    (filled : IsSegment (a, segment_at a segs)) (b_at : b ≡ a + 4 * length (segment_at a segs))
    (room : b + 4 * length (segment_at b segs) < 2 ^ 32) where
  abbrev rest : Segments
  rest = remove b segs

  a-ne-b : a ≢ b
  a-ne-b p = omega (arith, filled.filled)

  merge_lem : merge a b segs ≡ insert a (segment_at a segs ++ segment_at b segs) rest
  unfolding merge
  merge_lem = remove-insert segs a _ b a-ne-b

  first_stays : segment_at a rest ≡ segment_at a segs
  first_stays = ap instructions_of (lookup-remove segs b a (λ p. a-ne-b (sym p)))

  holders_before :
      (addr : ℕ)
      → holders segs addr
        ≡ one b (segment_at b segs) addr
          + (one a (segment_at a segs) addr + holders (remove a rest) addr)
  holders_before addr =
      holders-remove segs b addr
      ∙ ap (λ n. one b (segment_at b segs) addr + n)
          (holders-remove rest a addr
            ∙ ap (λ l. one a l addr + holders (remove a rest) addr) first_stays)

  one_merged :
      (addr : ℕ)
      → one a (segment_at a segs ++ segment_at b segs) addr
        ≡ one a (segment_at a segs) addr + one b (segment_at b segs) addr
  one_merged addr =
      one-append a (segment_at a segs) (segment_at b segs) addr (omega arith)
      ∙ ap (λ s. one a (segment_at a segs) addr + one s (segment_at b segs) addr) (sym b_at)

  holders_merged :
      (addr : ℕ)
      → holders (insert a (segment_at a segs ++ segment_at b segs) rest) addr ≡ holders segs addr
  holders_merged addr = omega (
    arith,
    holders-insert rest a (segment_at a segs ++ segment_at b segs) addr,
    one_merged addr,
    holders_before addr,
  )

  get_merged :
      (addr : ℕ)
      → get_from (insert a (segment_at a segs ++ segment_at b segs) rest) addr ≡ get_from segs addr
  get_merged addr = ground (
    arith,
    get_from-insert rest a (segment_at a segs ++ segment_at b segs) addr,
    found-append a (segment_at a segs) (segment_at b segs) addr,
    ap (λ s. found s (segment_at b segs) addr) b_at,
    get_from-remove segs b addr,
    get_from-remove rest a addr,
    ap (λ l. found a l addr) first_stays,
    holders_merged addr,
    holders_before addr,
    holders-remove segs b addr,
    v.apart addr,
    found-none a (segment_at a segs) addr,
    found-none b (segment_at b segs) addr,
  )

  merge-Agrees : Agrees segs (merge a b segs)
  merge-Agrees = subst (Agrees segs) (sym merge_lem) (record {
    laid_out = record {
      segment = All-insert IsSegment rest a _ (All-remove IsSegment segs b v.segment) (record {
        aligned = filled.aligned;
        filled =
            omega (arith, filled.filled, length-append (segment_at a segs) (segment_at b segs));
        below_top = omega (arith, length-append (segment_at a segs) (segment_at b segs));
      });
      apart = λ addr. omega (arith, holders_merged addr, v.apart addr);
    };
    same = get_merged;
  })

segment_at-room :
    (segs : Segments) (b : ℕ)
    → All IsSegment segs
    → b < 2 ^ 32
    → b + 4 * length (segment_at b segs) < 2 ^ 32
segment_at-room segs b all h = elim (Option-cases (lookup b segs)) [
  | inl absent ↦ rw absent (omega (arith, h))
  | inr (insts, present) ↦ rw present ((All-lookup IsSegment segs b all present).below_top)
]

-- one round of the loop in which two segments are joined
contiguous-Agrees :
    (segs : Segments) (a b : ℕ)
    → IsLaidOut segs
    → a < 2 ^ 32
    → is_contiguous a b segs ≡ true
    → Agrees segs (merge a b segs)
unfolding is_contiguous
contiguous-Agrees segs a b v h joined = elim (Option-cases (lookup a segs)) [
  | inl absent ↦
      let empty = ap instructions_of absent in
      let same : b ≡ a = omega (arith, meet, ap length empty) in
      subst (λ t. Agrees segs (merge a t segs)) (sym same)
        (unfold merge in
          subst (Agrees segs) (sym (remove-insert_self segs a _))
            (remove_absent-Agrees segs a v empty))
  | inr (insts, present) ↦
      let filled : IsSegment (a, segment_at a segs) =
        rw present (All-lookup IsSegment segs a v.segment present) in
      let b_at : b ≡ a + 4 * length (segment_at a segs) = omega (arith, meet, filled.below_top) in
      merge-Agrees segs a b v filled b_at
        (segment_at-room segs b v.segment (omega (arith, b_at, filled.below_top)))
]
  where
    meet : add32 a (u32 (length (segment_at a segs) * 4)) ≡ b
    meet = (==_iff _ b).0 joined

Agrees-trans : {x y z : Segments} → Agrees x y → Agrees y z → Agrees x z
Agrees-trans p q = record { laid_out = q.laid_out; same = λ addr. q.same addr ∙ p.same addr }

join_from-Agrees :
    (l : List ℕ) (segs : Segments)
    → All (λ a. a < 2 ^ 32) l
    → IsLaidOut segs
    → Agrees segs (join_from l segs)
unfolding join_from
join_from-Agrees [] segs h v = record { laid_out = v; same = λ _. refl }
join_from-Agrees (a ∷ []) segs h v = record { laid_out = v; same = λ _. refl }
join_from-Agrees (a ∷ b ∷ l) segs h v = elim (Bool-cases (is_contiguous a b segs)) [
  | inl joined ↦
      let merged = contiguous-Agrees segs a b v h.0 joined in
      rw joined
        (Agrees-trans merged (join_from-Agrees (b ∷ l) (merge a b segs) h.1 merged.laid_out))
  | inr separate ↦ rw separate (join_from-Agrees (b ∷ l) segs h.1 v)
]

All-insert_address :
    (a : ℕ) (l : List ℕ)
    → a < 2 ^ 32
    → All (λ x. x < 2 ^ 32) l
    → All (λ x. x < 2 ^ 32) (insert_address a l)
All-insert_address a [] h all = (h, tt)
All-insert_address a (b ∷ l) h all = elim (Bool-cases (leb a b)) [
  | inl le ↦ rw le (h, all)
  | inr gt ↦ rw gt (all.0, All-insert_address a l h all.1)
]

All-sort_addresses :
    (segs : Segments)
    → All IsSegment segs
    → All (λ x. x < 2 ^ 32) (sort_addresses (addresses_of segs))
All-sort_addresses [] all = tt
All-sort_addresses (seg ∷ rest) all =
    All-insert_address seg.0 (sort_addresses (addresses_of rest)) (omega (arith, all.0.below_top))
      (All-sort_addresses rest all.1)

pub join_contiguous_segments-Agrees :
    (segs : Segments) → IsLaidOut segs → Agrees segs (join_contiguous_segments segs)
unfolding join_contiguous_segments sorted_segment_addresses
join_contiguous_segments-Agrees segs v =
    join_from-Agrees (sort_addresses (addresses_of segs)) segs (All-sort_addresses segs v.segment) v
