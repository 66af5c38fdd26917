-- ===== src/Web/MemoryView.antt =====
-- web/src/memory_view.go: the view of forty-eight bytes. The texts of its cells are its state.
mod Tests
pub mod Base
pub mod Cells
use mips.Prelude.{
  ℕ, zero, suc, ◌+◌, ◌*◌, ◌%◌, String, List, [], ◌∷◌, ◌++◌, Bool, true, false, Option, none, some,
  ltb, ◌==◌, if◌then◌else◌,
}
use mips.Isa.{u8, add32, sub32}
use mips.Memory.Interface.{MemoryOps}
use mips.Formatting.{format32_bit_hex, format8_bit_hex}

abbrev pub memory_view_rows : ℕ
memory_view_rows = 6

abbrev pub memory_view_columns : ℕ
memory_view_columns = 8

pub record MemoryView (M : Type 0) : Type 0 where
  pub base_label : String
  pub base_address : ℕ
  pub memory_cells : List String
  pub address_cells : List String
  pub memory : M

-- the first loop of `updateBase`; `none` means that the fuel ran out
unfoldable pub align : ℕ → ℕ → Option ℕ
align zero addr = none
align (suc fuel) addr =
    let rest = align fuel (sub32 addr 1) in
    if addr % memory_view_columns == 0 then some addr else rest

-- the second loop
unfoldable pub keep_inside : ℕ → ℕ → Option ℕ
keep_inside zero addr = none
keep_inside (suc fuel) addr =
    let rest = keep_inside fuel (sub32 addr memory_view_columns) in
    if ltb (add32 addr (memory_view_rows * memory_view_columns)) addr then rest else some addr

-- the base that `updateBase` sets
unfoldable pub base_of : ℕ → ℕ → Option ℕ
unfolding align keep_inside
base_of fuel addr = elim (align fuel addr) [ none ↦ none | some aligned ↦ keep_inside fuel aligned ]

-- `updateAddressCells`: a text for each row
unfoldable pub address_texts : ℕ → ℕ → List String
address_texts zero addr = []
address_texts (suc rows) addr =
    format32_bit_hex addr ∷ address_texts rows (add32 addr memory_view_columns)

module _ {M : Type 0} (ops : MemoryOps M) where
  -- the inner loop of `Update`: the texts of a row's cells
  unfoldable pub row_texts : M → ℕ → ℕ → List String
  row_texts mem zero addr = []
  row_texts mem (suc columns) addr =
      format8_bit_hex (u8 (ops.get mem addr)) ∷ row_texts mem columns (add32 addr 1)

  -- the outer loop
  unfoldable pub cell_texts : M → ℕ → ℕ → List String
  unfolding row_texts
  cell_texts mem zero addr = []
  cell_texts mem (suc rows) addr =
      row_texts mem memory_view_columns addr ++ cell_texts mem rows (add32 addr memory_view_columns)

  unfoldable pub update : MemoryView M → M → MemoryView M
  update m mem = record m {
    memory = mem;
    memory_cells = cell_texts mem memory_view_rows m.base_address;
  }

  unfoldable pub update_base : ℕ → MemoryView M → ℕ → Option (MemoryView M)
  unfolding base_of update
  update_base fuel m addr = elim (base_of fuel addr) [
    | none ↦ none
    | some base ↦ some (
        update
          (record m {
            base_address = base;
            base_label = format32_bit_hex base;
            address_cells = address_texts memory_view_rows base;
          })
          m.memory)
  ]

  -- `clickedCell`, once a value is entered; the popup covers the page, so the base is still that of
  -- the click
  unfoldable pub clicked_cell : MemoryView M → ℕ → ℕ → MemoryView M
  unfolding update
  clicked_cell m index val = update m (ops.set m.memory (add32 m.base_address index) (u8 val))
