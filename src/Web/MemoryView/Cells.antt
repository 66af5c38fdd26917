-- ===== src/Web/MemoryView/Cells.antt =====
-- The cells of the view.
use mips.Prelude.{
  ℕ, zero, suc, ◌+◌, ◌-◌, ◌*◌, ◌%◌, ◌^◌, ◌<◌, ◌≤◌, ◌≡◌, ◌≢◌, ◌↔◌, refl, sym, ap, ◌∙◌, ◌∷◌, ◌++◌,
  some, false, arith, ◌==◌, if◌then◌else◌, get_elem?,
}
use mips.Isa.{u8, add32}
use mips.Memory.Interface.{MemoryOps, MemoryLaws}
use mips.Formatting.{format8_bit_hex, format32_bit_hex}
use mips.Web.MemoryView.{
  MemoryView, row_texts, cell_texts, update, update_base, clicked_cell, address_texts,
  memory_view_rows,
}
use mips.Web.MemoryView.Base.{base, base_of-base}

module _ {M : Type 0} (ops : MemoryOps M) where
  row_texts-append :
      (mem : M) (a b addr : ℕ)
      → addr < 2 ^ 32
      → (row_texts ops mem a addr ++ row_texts ops mem b (add32 addr a))
        ≡ row_texts ops mem (a + b) addr
  unfolding row_texts
  row_texts-append mem zero b addr small =
      let here : add32 addr 0 ≡ addr = omega (arith, small) in
      let whole : b ≡ 0 + b = omega arith in
      ap (row_texts ops mem b) here ∙ ap (λ n. row_texts ops mem n addr) whole
  row_texts-append mem (suc a) b addr small =
      let next : add32 addr (suc a) ≡ add32 (add32 addr 1) a = omega arith in
      let whole : suc (a + b) ≡ suc a + b = omega arith in
      ap
        (λ n.
          format8_bit_hex (u8 (ops.get mem addr))
          ∷ (row_texts ops mem a (add32 addr 1) ++ row_texts ops mem b n))
        next
      ∙ ap (λ texts. format8_bit_hex (u8 (ops.get mem addr)) ∷ texts)
          (row_texts-append mem a b (add32 addr 1) (omega arith))
      ∙ ap (λ n. row_texts ops mem n addr) whole

  cell_texts-flat :
      (mem : M) (rows addr : ℕ)
      → addr < 2 ^ 32
      → cell_texts ops mem rows addr ≡ row_texts ops mem (rows * 8) addr
  unfolding cell_texts
  cell_texts-flat mem zero addr small = refl
  cell_texts-flat mem (suc rows) addr small =
      let whole : 8 + rows * 8 ≡ suc rows * 8 = omega arith in
      ap (λ texts. row_texts ops mem 8 addr ++ texts)
        (cell_texts-flat mem rows (add32 addr 8) (omega arith))
      ∙ row_texts-append mem 8 (rows * 8) addr small
      ∙ ap (λ n. row_texts ops mem n addr) whole

  row_texts-get_elem? :
      (mem : M) (columns addr k : ℕ)
      → k < columns
      → addr + k < 2 ^ 32
      → get_elem? (row_texts ops mem columns addr) k
        ≡ some (format8_bit_hex (u8 (ops.get mem (addr + k))))
  unfolding row_texts
  row_texts-get_elem? mem zero addr k h small = absurd (omega (arith, h))
  row_texts-get_elem? mem (suc columns) addr zero h small =
      let same : addr ≡ addr + 0 = omega arith in
      ap (λ a. some (format8_bit_hex (u8 (ops.get mem a)))) same
  row_texts-get_elem? mem (suc columns) addr (suc k) h small =
      let next : add32 addr 1 ≡ addr + 1 = omega (arith, small) in
      let same : addr + 1 + k ≡ addr + suc k = omega arith in
      ap (λ a. get_elem? (row_texts ops mem columns a) k) next
      ∙ row_texts-get_elem? mem columns (addr + 1) k (omega (arith, h)) (omega (arith, small))
      ∙ ap (λ a. some (format8_bit_hex (u8 (ops.get mem a)))) same

  cell_texts-get_elem? :
      (mem : M) (addr k : ℕ)
      → k < 48
      → addr + 48 < 2 ^ 32
      → get_elem? (cell_texts ops mem memory_view_rows addr) k
        ≡ some (format8_bit_hex (u8 (ops.get mem (addr + k))))
  cell_texts-get_elem? mem addr k h small =
      ap (λ texts. get_elem? texts k) (cell_texts-flat mem 6 addr (omega (arith, small)))
      ∙ row_texts-get_elem? mem 48 addr k h (omega (arith, small, h))

-- A view from which the memory does not end, whose cells show the bytes from its base on.
pub record IsShown {M : Type 0} (ops : MemoryOps M) (m : MemoryView M) : Type 0 where
  pub aligned : m.base_address % 8 ≡ 0
  pub inside : m.base_address + 48 < 2 ^ 32
  pub cells :
      (k : ℕ)
      → k < 48
      → get_elem? m.memory_cells k
        ≡ some (format8_bit_hex (u8 (ops.get m.memory (m.base_address + k))))

-- Both loops of `updateBase` end within eight rounds. Then the view begins at a multiple of eight,
-- not above the address, and lies within the memory; each of its forty-eight cells shows the byte
-- at its place; and the address is in the view exactly if it is not one of the last eight.
pub update_base-IsShown :
    {M : Type 0} (ops : MemoryOps M) (m : MemoryView M) (addr : ℕ)
    → addr < 2 ^ 32
    → (v : MemoryView M) × (update_base ops 8 m addr ≡ some v)
      × IsShown ops v
      × (v.memory ≡ m.memory)
      × (v.base_address ≤ addr)
      × ((addr < v.base_address + 48) ↔ (addr < 2 ^ 32 - 8))
unfolding update_base update
update_base-IsShown {M} ops m addr small =
    let v : MemoryView M =
      update ops
        (record m {
          base_address = base addr;
          base_label = format32_bit_hex (base addr);
          address_cells = address_texts memory_view_rows (base addr);
        })
        m.memory in
    let within : base addr + 48 < 2 ^ 32 = ground arith in
    let even : base addr % 8 ≡ 0 = ground arith in
    (
      v,
      rw (base_of-base addr small, update_base) refl,
      record {
        aligned = even;
        inside = within;
        cells = λ k h. cell_texts-get_elem? ops m.memory (base addr) k h within;
      },
      refl,
      ground arith,
      ground (arith, small),
    )

-- On a valid memory that keeps its laws, in a view that shows its forty-eight bytes within the
-- memory: a value that is entered for a cell is shown in that cell, as a byte; the other cells show
-- what they showed, and the view still shows its bytes.
pub clicked_cell-IsShown :
    {M : Type 0} (ops : MemoryOps M) (laws : MemoryLaws ops) (m : MemoryView M) (index val : ℕ)
    → IsShown ops m
    → MemoryLaws.IsValid laws m.memory
    → index < 48
    → IsShown ops (clicked_cell ops m index val)
      × (get_elem? (clicked_cell ops m index val).memory_cells index
          ≡ some (format8_bit_hex (u8 val)))
      × ((k : ℕ)
          → k < 48
          → k ≢ index
          → get_elem? (clicked_cell ops m index val).memory_cells k ≡ get_elem? m.memory_cells k)
unfolding clicked_cell update
clicked_cell-IsShown {M} ops laws m index val shown valid h =
    let target : add32 m.base_address index ≡ m.base_address + index =
      omega (arith, shown.inside, h) in
    let mem = ops.set m.memory (add32 m.base_address index) (u8 val) in
    let byte : u8 (u8 val) ≡ u8 val = omega arith in
    let written : (k : ℕ)
        → k < 48
        → ops.get mem (m.base_address + k) ≡ (
            if add32 m.base_address index == m.base_address + k
            then u8 val
            else ops.get m.memory (m.base_address + k)) =
      λ k near.
        laws.get-set m.memory (add32 m.base_address index) (m.base_address + k) (u8 val) valid
          (omega arith) (omega (arith, shown.inside, near)) in
    let seen =
      λ (k : ℕ) (near : k < 48). cell_texts-get_elem? ops mem m.base_address k near shown.inside in
    (
      record { aligned = shown.aligned; inside = shown.inside; cells = seen },
      seen index h
          ∙ ap (λ b. some (format8_bit_hex (u8 b))) (written index h ∙ rw target (ground arith))
          ∙ ap (λ b. some (format8_bit_hex b)) byte,
      λ k near other.
          let apart : (add32 m.base_address index == m.base_address + k) ≡ false =
            ground (arith, target, other) in
          seen k near
          ∙ ap (λ b. some (format8_bit_hex (u8 b))) (written k near ∙ rw apart refl)
          ∙ sym (shown.cells k near),
    )
