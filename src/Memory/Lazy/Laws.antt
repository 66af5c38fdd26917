-- ===== src/Memory/Lazy/Laws.antt =====
-- The lazy memory keeps the laws of the interface: it refines a map from addresses to bytes.
use mips.Prelude.{
  zero, ℕ, ◌*◌, ◌/◌, ◌%◌, ◌^◌, ◌<◌, ◌≡◌, sym, ap, ◌∙◌, inl, inr, List, Option, none, some, arith,
  lookup, insert, get_or, set, replicate, length, All, Option-cases, Bool-cases, ◌==◌,
  if◌then◌else◌, lookup-insert, length-set, length-replicate, get_or-replicate, get_or-set_self,
  get_or-set_ne, All-lookup, All-insert,
}
use mips.Bits.Fields.{bit_and_mask, bit_and_high}
use mips.Memory.Interface.{MemoryLaws}
use mips.Memory.Lazy.{LazyMemory, new_lazy_memory, get, set_byte, page_of, offset_of, lazy_ops}

-- a page has 0x1000 bytes
abbrev pub PageIsValid : ℕ × List ℕ → Type 0
PageIsValid (k, page) = (length page ≡ 0x1000) × ((i : ℕ) → get_or page i 0 < 2 ^ 8)

abbrev pub IsValid : LazyMemory → Type 0
IsValid l = All PageIsValid l.pages

pub new_lazy_memory-IsValid : IsValid new_lazy_memory
unfolding new_lazy_memory
new_lazy_memory-IsValid = tt

page_of_lem : (p : ℕ) → p < 2 ^ 32 → page_of p ≡ p / 2 ^ 12 * 2 ^ 12
page_of_lem p h = omega (arith, bit_and_high 20 12 p)

offset_of_lem : (p : ℕ) → offset_of p ≡ p % 2 ^ 12
offset_of_lem p = bit_and_mask 12 p

-- The page of a key, or the zeros that the page would be made of.
page_or_zeros : Option (List ℕ) → List ℕ
page_or_zeros (some page) = page
page_or_zeros none = replicate 0x1000 0

pub page_at : LazyMemory → ℕ → List ℕ
unfolding page_or_zeros
page_at l k = page_or_zeros (lookup k l.pages)

page_at-PageIsValid : (l : LazyMemory) (k : ℕ) → IsValid l → PageIsValid (k, page_at l k)
unfolding page_at
page_at-PageIsValid l k h = elim (Option-cases (lookup k l.pages)) [
  | inl absent ↦
      rw (absent, page_at)
        (length-replicate 0x1000 0, λ i. rw (get_or-replicate 0x1000 i zero) (omega arith))
  | inr (page, present) ↦ rw (present, page_at) (All-lookup PageIsValid l.pages k h present)
]

get-page_at : (l : LazyMemory) (p : ℕ) → get l p ≡ get_or (page_at l (page_of p)) (offset_of p) 0
unfolding get page_at
get-page_at l p = elim (Option-cases (lookup (page_of p) l.pages)) [
  | inl absent ↦ rw (absent, page_at, get) (sym (get_or-replicate 0x1000 (offset_of p) zero))
  | inr (page, present) ↦ rw (present, page_at, get)
]

set_byte-page_at :
    (l : LazyMemory) (p b : ℕ)
    → (set_byte l p b).pages
      ≡ insert (page_of p) (set (page_at l (page_of p)) (offset_of p) b) l.pages
unfolding set_byte page_at
set_byte-page_at l p b = elim (Option-cases (lookup (page_of p) l.pages)) [
  | inl absent ↦ rw (absent, page_at, set_byte)
  | inr (page, present) ↦ rw (present, page_at, set_byte)
]

-- The address decides, and is decided by, the page and the offset.
same_place :
    (p q : ℕ) → p < 2 ^ 32 → q < 2 ^ 32 → page_of p ≡ page_of q → offset_of p ≡ offset_of q → p ≡ q
same_place p q hp hq e f =
    omega (arith, page_of_lem p hp, page_of_lem q hq, offset_of_lem p, offset_of_lem q)

page_at-set_byte :
    (l : LazyMemory) (p b k : ℕ)
    → page_at (set_byte l p b) k
      ≡ (if page_of p == k then set (page_at l (page_of p)) (offset_of p) b else page_at l k)
unfolding page_at
page_at-set_byte l p b k =
    let page = set (page_at l (page_of p)) (offset_of p) b in
    ap (λ (m : List (ℕ × List ℕ)). page_or_zeros (lookup k m)) (set_byte-page_at l p b)
    ∙ ap page_or_zeros (lookup-insert l.pages (page_of p) page k)
    ∙ elim (Bool-cases (page_of p == k)) [ inl same ↦ rw same | inr other ↦ rw other ]

-- An index into a page is in range.
pub offset_of-lt-length :
    (l : LazyMemory) (p : ℕ) → IsValid l → offset_of p < length (page_at l (page_of p))
offset_of-lt-length l p h = omega (arith, offset_of_lem p, (page_at-PageIsValid l (page_of p) h).0)

-- In a well-formed memory, at 32-bit addresses: a byte that is set is read back, and every other
-- address reads as before.
pub get-set_byte :
    (l : LazyMemory) (p q b : ℕ)
    → IsValid l
    → p < 2 ^ 32
    → q < 2 ^ 32
    → get (set_byte l p b) q ≡ (if p == q then b else get l q)
get-set_byte l p q b h hp hq = ground (
  arith,
  get-page_at (set_byte l p b) q,
  page_at-set_byte l p b (page_of q),
  same_place p q,
  get-page_at l q,
  offset_of-lt-length l p h,
  get_or-set_self (page_at l (page_of p)) (offset_of p) b 0,
  get_or-set_ne (page_at l (page_of p)) (offset_of p) (offset_of q) b 0,
)

pub set_byte-IsValid : (l : LazyMemory) (p b : ℕ) → IsValid l → b < 2 ^ 8 → IsValid (set_byte l p b)
set_byte-IsValid l p b h hb =
    rw (set_byte-page_at l p b) (All-insert PageIsValid l.pages (page_of p) _ h written)
  where
    old : PageIsValid (page_of p, page_at l (page_of p))
    old = page_at-PageIsValid l (page_of p) h

    written : PageIsValid (page_of p, set (page_at l (page_of p)) (offset_of p) b)
    written = (
      length-set (page_at l (page_of p)) (offset_of p) b ∙ old.0,
      λ i. ground (
        arith,
        old.1 i,
        get_or-set_self (page_at l (page_of p)) (offset_of p) b 0,
        get_or-set_ne (page_at l (page_of p)) (offset_of p) i b 0,
        offset_of-lt-length l p h,
      ),
    )

pub get-lt : (l : LazyMemory) (p : ℕ) → IsValid l → get l p < 2 ^ 8
get-lt l p h = rw (get-page_at l p) ((page_at-PageIsValid l (page_of p) h).1 (offset_of p))

-- The implementation fills the interface.
abbrev pub lazy_laws : MemoryLaws lazy_ops
lazy_laws = record {
  IsValid = IsValid;
  get-lt = get-lt;
  set-IsValid = set_byte-IsValid;
  get-set = get-set_byte;
}
