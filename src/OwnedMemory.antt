-- ===== src/OwnedMemory.antt =====
-- lib/owned_memory.hpp: backing memory from `operator new[]` or from a hugetlb mapping.
-- The allocation calls of the platform are the record `Platform`.
pub mod Laws
pub mod Tests
use allocazam.Prelude.{
  ℕ, ◌+◌, ◌%◌, ◌*◌, ◌^◌, ◌≤◌, ◌<◌, ◌≡◌, ◌≢◌, Bool, true, false, not, ◌||◌, Option, none, some, ltb,
  ◌==◌, if◌then◌else◌,
}
use allocazam.Word.{size_mod, checked_round_to_multiple_of}
use allocazam.Word.Pow2.{has_single_bit}
use allocazam.Exception.{Exception, bad_alloc, Outcome, ok, throw}

pub data HugePages : Type 0 where
  disabled enabled : HugePages

abbrev pub explicit_huge_page_bytes : ℕ
explicit_huge_page_bytes = 2 * 2 ^ 20

-- `alignof(void*)` and `alignof(std::max_align_t)`
abbrev pub pointer_align : ℕ
pointer_align = 8

abbrev pub max_align : ℕ
max_align = 16

pub data OwnedMemoryError : Type 0 where
  out_of_memory hugetlb_failed : OwnedMemoryError

pub record OwnedMemory : Type 0 where
  pub base : ℕ
  pub bytes : ℕ
  pub alignment : ℕ

abbrev pub no_memory : OwnedMemory
no_memory = record { base = 0; bytes = 0; alignment = max_align }

pub data Expected : Type 0 where
  value : OwnedMemory → Expected
  unexpected : OwnedMemoryError → Expected

-- `new_nothrow bytes alignment` is the pointer, 0 on failure; `mmap_hugetlb bytes` is the mapping.
pub record Platform : Type 0 where
  pub linux : Bool
  pub new_nothrow : ℕ → ℕ → ℕ
  pub mmap_hugetlb : ℕ → Option ℕ

-- What the C++ standard and the kernel promise of a successful call.
pub record IsPlatform (env : Platform) : Type 0 where
  pub new_aligned :
      (bytes alignment : ℕ)
      → env.new_nothrow bytes alignment ≢ 0
      → env.new_nothrow bytes alignment % alignment ≡ 0
  pub new_fits :
      (bytes alignment : ℕ)
      → env.new_nothrow bytes alignment ≢ 0
      → env.new_nothrow bytes alignment + bytes < size_mod
  pub map_not_null : (bytes p : ℕ) → env.mmap_hugetlb bytes ≡ some p → p ≢ 0
  pub map_aligned :
      (bytes p : ℕ) → env.mmap_hugetlb bytes ≡ some p → p % explicit_huge_page_bytes ≡ 0
  pub map_fits : (bytes p : ℕ) → env.mmap_hugetlb bytes ≡ some p → p + bytes < size_mod

map_huge : Platform → ℕ → Expected
map_huge env mapping_bytes = elim (env.mmap_hugetlb mapping_bytes) [
  | none ↦ unexpected hugetlb_failed
  | some p ↦
      value (record { base = p; bytes = mapping_bytes; alignment = explicit_huge_page_bytes })
]

allocate_huge : Platform → ℕ → ℕ → Expected
unfolding map_huge
allocate_huge env bytes alignment =
    if not env.linux
    then unexpected hugetlb_failed
    else if ltb explicit_huge_page_bytes alignment
    then unexpected hugetlb_failed
    else elim (checked_round_to_multiple_of bytes explicit_huge_page_bytes) [
      | none ↦ unexpected out_of_memory
      | some mapping_bytes ↦ map_huge env mapping_bytes
    ]

allocate_new : Platform → ℕ → ℕ → Expected
allocate_new env bytes alignment =
    let raw = env.new_nothrow bytes alignment in
    if raw == 0
    then unexpected out_of_memory
    else value (record { base = raw; bytes = bytes; alignment = alignment })

by_page : HugePages → Platform → ℕ → ℕ → Expected
unfolding allocate_huge allocate_new
by_page enabled env bytes alignment = allocate_huge env bytes alignment
by_page disabled env bytes alignment = allocate_new env bytes alignment

unfoldable pub allocate_owned_memory : HugePages → Platform → ℕ → ℕ → Expected
unfolding by_page
allocate_owned_memory huge env bytes alignment =
    if bytes == 0 || ltb alignment pointer_align || not (has_single_bit alignment)
    then unexpected out_of_memory
    else by_page huge env bytes alignment

-- The call that gives the memory back, if there is one.
pub data Freed : Type 0 where
  nothing : Freed
  unmapped : (base bytes : ℕ) → Freed
  deleted : (base alignment : ℕ) → Freed

unfoldable pub release_owned_memory : HugePages → Platform → OwnedMemory → Freed
release_owned_memory enabled env m =
    if m.base == 0 then nothing else if env.linux then unmapped m.base m.bytes else nothing
release_owned_memory disabled env m = if m.base == 0 then nothing else deleted m.base m.alignment

-- The constructor of `owned_memory_owner`.
unfoldable pub own_memory : HugePages → Platform → ℕ → ℕ → Outcome OwnedMemory
own_memory huge env bytes alignment = elim (allocate_owned_memory huge env bytes alignment) [
  | value m ↦ ok m
  | unexpected _ ↦ throw bad_alloc
]
