-- ===== src/Emulator/Words.antt =====
-- The words that `LW` and `SW` transfer, byte by byte.
use mips.Prelude.{
  ℕ, zero, suc, ◌-◌, ◌*◌, ◌/◌, ◌^◌, ◌<◌, ◌≡◌, refl, ◌∙◌, Bool, true, false, arith, ltb, ◌==◌,
  if◌then◌else◌, bit_or, lt→ltb,
}
use mips.Bits.Fields.{bit_or_sum4}
use mips.Isa.{u8, add32, sub32, ◌<<◌, ◌>>>◌}
use mips.Memory.Interface.{MemoryOps, MemoryLaws}
use mips.Emulator.Execute.Transfer.{load_word, store_little, store_big, store_word}

join_bytes :
    (val : ℕ)
    → val < 2 ^ 32
    → bit_or
        (bit_or (bit_or (u8 (val >>> 24) << 24) (u8 (val >>> 16) << 16)) (u8 (val >>> 8) << 8))
        (u8 (val >>> 0))
      ≡ val
join_bytes val h =
    bit_or_sum4 24 16 8 (u8 (val >>> 24) << 24) (u8 (val >>> 16) << 16) (u8 (val >>> 8) << 8)
      (u8 (val >>> 0)) (omega arith) (omega arith) (omega arith) (omega arith) (omega arith)
      (omega arith)
    ∙ omega arith

-- The byte of a word at an offset from its address.
abbrev pub byte_of_word : Bool → ℕ → ℕ → ℕ
byte_of_word little_endian val i = u8 (val / 2 ^ (8 * (if little_endian then i else 3 - i)))

four-cases : (P : ℕ → Type 0) → P 0 → P 1 → P 2 → P 3 → (i : ℕ) → i < 4 → P i
four-cases P p0 p1 p2 p3 zero h = p0
four-cases P p0 p1 p2 p3 (suc zero) h = p1
four-cases P p0 p1 p2 p3 (suc (suc zero)) h = p2
four-cases P p0 p1 p2 p3 (suc (suc (suc zero))) h = p3
four-cases P p0 p1 p2 p3 (suc (suc (suc (suc i)))) h = absurd (omega (arith, h))

abbrev one_of_four : ℕ → ℕ → ℕ → ℕ → ℕ → ℕ
one_of_four i x0 x1 x2 x3 = if i == 0 then x0 else if i == 1 then x1 else if i == 2 then x2 else x3

little-byte :
    (val i : ℕ)
    → i < 4
    → byte_of_word true val i
      ≡ one_of_four i (u8 val) (u8 (val >>> 8)) (u8 (val >>> 16)) (u8 (val >>> 24))
little-byte val =
    four-cases
      (λ i.
        byte_of_word true val i
        ≡ one_of_four i (u8 val) (u8 (val >>> 8)) (u8 (val >>> 16)) (u8 (val >>> 24)))
      (omega arith) refl refl refl

big-byte :
    (val i : ℕ)
    → i < 4
    → byte_of_word false val i
      ≡ one_of_four i (u8 (val >>> 24)) (u8 (val >>> 16)) (u8 (val >>> 8)) (u8 val)
big-byte val =
    four-cases
      (λ i.
        byte_of_word false val i
        ≡ one_of_four i (u8 (val >>> 24)) (u8 (val >>> 16)) (u8 (val >>> 8)) (u8 val))
      refl refl refl (omega arith)

module _ {M : Type 0} (ops : MemoryOps M) (laws : MemoryLaws ops) where
  get-set4 :
      (m : M) (p0 b0 p1 b1 p2 b2 p3 b3 q : ℕ)
      → MemoryLaws.IsValid laws m
      → p0 < 2 ^ 32
      → p1 < 2 ^ 32
      → p2 < 2 ^ 32
      → p3 < 2 ^ 32
      → q < 2 ^ 32
      → b0 < 2 ^ 8
      → b1 < 2 ^ 8
      → b2 < 2 ^ 8
      → ops.get (ops.set (ops.set (ops.set (ops.set m p0 b0) p1 b1) p2 b2) p3 b3) q ≡ (
          if p3 == q
          then b3
          else if p2 == q
          then b2
          else if p1 == q
          then b1
          else if p0 == q
          then b0
          else ops.get m q)
  get-set4 m p0 b0 p1 b1 p2 b2 p3 b3 q v h0 h1 h2 h3 hq c0 c1 c2 =
      let v0 = MemoryLaws.set-IsValid laws m p0 b0 v c0 in
      let v1 = MemoryLaws.set-IsValid laws _ p1 b1 v0 c1 in
      let v2 = MemoryLaws.set-IsValid laws _ p2 b2 v1 c2 in
      rw
        (
          MemoryLaws.get-set laws _ p3 q b3 v2 h3 hq,
          MemoryLaws.get-set laws _ p2 q b2 v1 h2 hq,
          MemoryLaws.get-set laws _ p1 q b1 v0 h1 hq,
          MemoryLaws.get-set laws m p0 q b0 v h0 hq,
        )
        refl

  -- On a valid memory that keeps its laws, storing a word at a 32-bit address changes the four bytes from there on, around the end of the
  -- address space, to those of the word in the byte order that is set, and no other byte.
  pub get-store_word :
      (little_endian : Bool) (m : M) (a val q : ℕ)
      → MemoryLaws.IsValid laws m
      → a < 2 ^ 32
      → q < 2 ^ 32
      → ops.get (store_word ops little_endian m a val) q
        ≡ (if ltb (sub32 q a) 4 then byte_of_word little_endian val (sub32 q a) else ops.get m q)
  unfolding store_word store_little store_big
  get-store_word true m a val q v ha hq =
      get-set4 m _ _ _ _ _ _ _ _ q v (omega arith) (omega arith) (omega arith) (omega arith) hq
        (omega arith) (omega arith) (omega arith)
      ∙ ground (arith, little-byte val (sub32 q a))
  get-store_word false m a val q v ha hq =
      get-set4 m _ _ _ _ _ _ _ _ q v (omega arith) (omega arith) (omega arith) (omega arith) hq
        (omega arith) (omega arith) (omega arith)
      ∙ ground (arith, big-byte val (sub32 q a))

  stored_byte :
      (le : Bool) (m : M) (a val i q : ℕ)
      → MemoryLaws.IsValid laws m
      → a < 2 ^ 32
      → i < 4
      → q ≡ add32 a i
      → ops.get (store_word ops le m a val) q ≡ byte_of_word le val i
  stored_byte le m a val i q v ha hi hq =
      let back : sub32 q a ≡ i = omega arith in
      get-store_word le m a val q v ha (omega arith) ∙ rw back (rw (lt→ltb i 4 hi) refl)

  -- On a valid memory that keeps its laws, a 32-bit word that is stored is loaded back, in either byte order and at any address, aligned or not.
  pub load_word-store_word :
      (little_endian : Bool) (m : M) (a val : ℕ)
      → MemoryLaws.IsValid laws m
      → a < 2 ^ 32
      → val < 2 ^ 32
      → load_word ops little_endian (store_word ops little_endian m a val) a ≡ val
  unfolding load_word
  load_word-store_word true m a val v ha hval =
      rw
        (
          stored_byte true m a val 0 a v ha (omega arith) (omega arith),
          stored_byte true m a val 1 (add32 a 1) v ha (omega arith) refl,
          stored_byte true m a val 2 (add32 a 2) v ha (omega arith) refl,
          stored_byte true m a val 3 (add32 a 3) v ha (omega arith) refl,
        )
        (join_bytes val hval)
  load_word-store_word false m a val v ha hval =
      rw
        (
          stored_byte false m a val 0 a v ha (omega arith) (omega arith),
          stored_byte false m a val 1 (add32 a 1) v ha (omega arith) refl,
          stored_byte false m a val 2 (add32 a 2) v ha (omega arith) refl,
          stored_byte false m a val 3 (add32 a 3) v ha (omega arith) refl,
        )
        (join_bytes val hval)
