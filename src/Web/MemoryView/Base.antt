-- ===== src/Web/MemoryView/Base.antt =====
-- The loops of updateBase.
use mips.Prelude.{
  ℕ, zero, suc, ◌+◌, ◌-◌, ◌*◌, ◌%◌, ◌^◌, ◌<◌, ◌≤◌, ◌≡◌, ◌∙◌, refl, ap, some, arith, ltb, ◌==◌,
  if◌then◌else◌, inl, inr, Bool-cases, true, false,
}
use mips.Isa.{add32, sub32}
use mips.Web.MemoryView.{align, keep_inside, base_of}

-- As many rounds as the address is above a multiple of eight.
align-down :
    (fuel addr : ℕ) → addr < 2 ^ 32 → addr % 8 < fuel → align fuel addr ≡ some (addr - addr % 8)
unfolding align
align-down zero addr small enough = absurd (omega (arith, enough))
align-down (suc fuel) addr small enough = elim (Bool-cases (addr % 8 == 0)) [
  | inl even ↦ rw even (ap some (ground (arith, even)))
  | inr odd ↦
      let back : sub32 addr 1 ≡ addr - 1 = ground (arith, odd, small) in
      let next = align-down fuel (addr - 1) (omega (arith, small)) (ground (arith, odd, enough)) in
      rw (odd, back) (next ∙ ap some (ground (arith, odd)))
]

-- One round is enough for the last multiples of eight.
keep_inside-below : (fuel addr : ℕ) → addr + 48 < 2 ^ 32 → keep_inside (suc fuel) addr ≡ some addr
unfolding keep_inside
keep_inside-below fuel addr small =
    let stays : ltb (add32 addr 48) addr ≡ false = ground (arith, small) in rw stays refl

keep_inside-above :
    (fuel addr : ℕ)
    → addr % 8 ≡ 0
    → 2 ^ 32 ≤ addr + 48
    → addr < 2 ^ 32
    → addr < 2 ^ 32 - 48 + 8 * fuel
    → keep_inside (suc fuel) addr ≡ some (2 ^ 32 - 56)
unfolding keep_inside
keep_inside-above zero addr even high small enough = absurd (omega (arith, high, enough))
keep_inside-above (suc fuel) addr even high small enough =
    let back : ltb (add32 addr 48) addr ≡ true = ground (arith, high, small) in
    let less : sub32 addr 8 ≡ addr - 8 = omega (arith, high, small) in
    elim (Bool-cases (ltb (addr - 8 + 48) (2 ^ 32))) [
      | inl fits ↦
          let last : addr - 8 ≡ 2 ^ 32 - 56 = ground (arith, fits, high, even) in
          rw (back, less, last) (keep_inside-below fuel (2 ^ 32 - 56) (omega arith))
      | inr over ↦
          rw (back, less)
            (keep_inside-above fuel (addr - 8) (omega (arith, even, high)) (ground (arith, over))
              (omega (arith, small)) (omega (arith, enough, high)))
    ]

-- The multiple of eight below an address, or the last from which forty-eight bytes and one more
-- are in the memory.
abbrev pub base : ℕ → ℕ
base addr = if ltb (addr - addr % 8 + 48) (2 ^ 32) then addr - addr % 8 else 2 ^ 32 - 56

pub base_of-base : (addr : ℕ) → addr < 2 ^ 32 → base_of 8 addr ≡ some (base addr)
unfolding base_of
base_of-base addr small =
    rw (align-down 8 addr small (omega arith), base_of)
      (elim (Bool-cases (ltb (addr - addr % 8 + 48) (2 ^ 32))) [
        | inl fits ↦ rw fits (keep_inside-below 7 (addr - addr % 8) (ground (arith, fits)))
        | inr over ↦ rw over (
            keep_inside-above 7 (addr - addr % 8) (omega arith) (ground (arith, over))
              (omega (arith, small)) (omega (arith, small)))
      ])
