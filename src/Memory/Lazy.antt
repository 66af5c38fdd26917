-- ===== src/Memory/Lazy.antt =====
-- `LazyMemory`: pages of 0x1000 bytes, made when a byte of theirs is first set.
pub mod Laws
use mips.Prelude.{
  ℕ, ◌+◌, ◌-◌, ◌*◌, ◌/◌, ◌%◌, ◌^◌, ◌<◌, bit_and, ◌≡◌, refl, List, [], ◌∷◌, Option, none, some,
  lookup, insert, get_or, set, replicate,
}
use mips.Memory.Interface.{MemoryOps}

-- the map from page addresses to pages
pub record LazyMemory : Type 0 where
  pub pages : List (ℕ × List ℕ)

pub new_lazy_memory : LazyMemory
new_lazy_memory = record { pages = [] }

abbrev pub page_of : ℕ → ℕ
page_of ptr = bit_and ptr 0xfffff000

abbrev pub offset_of : ℕ → ℕ
offset_of ptr = bit_and ptr 0xfff

-- `data[ptr & 0xfff]`; `offset_of-lt-length` shows that the index is in range.
pub get : LazyMemory → ℕ → ℕ
get l ptr = elim (lookup (page_of ptr) l.pages) [
  | some page ↦ get_or page (offset_of ptr) 0
  | none ↦ 0
]

-- A slice is shared with the map, so a write into it is a write into the map's page.
pub set_byte : LazyMemory → ℕ → ℕ → LazyMemory
set_byte l ptr b = elim (lookup (page_of ptr) l.pages) [
  | some page ↦ record { pages = insert (page_of ptr) (set page (offset_of ptr) b) l.pages }
  | none ↦ record {
    pages = insert (page_of ptr) (set (replicate 0x1000 0) (offset_of ptr) b) l.pages;
  }
]

abbrev pub lazy_ops : MemoryOps LazyMemory
lazy_ops = record { get = get; set = set_byte }

read_back : get (set_byte new_lazy_memory 0xffff_ffff 7) 0xffff_ffff ≡ 7
unfolding get set_byte new_lazy_memory replicate
read_back = refl
