-- ===== src/OwnedMemory/Laws.antt =====
-- What an acquired region guarantees.
use allocazam.Prelude.{
  ℕ, ◌+◌, ◌%◌, ◌≤◌, ◌<◌, ◌≡◌, ◌≢◌, ◌⊎◌, inl, inr, true, false, none, some, arith, ◌==◌,
  Option-cases, Bool-cases,
}
use native.Mathlib.Decide.{dec_lt}
use allocazam.Word.{checked_round_to_multiple_of}
use allocazam.Word.Checked.{checked_round-le, checked_round-least}
use allocazam.Word.{size_mod, size_max}
use allocazam.Word.Pow2.{has_single_bit}
use allocazam.OwnedMemory.{
  OwnedMemoryError, unexpected, HugePages, disabled, enabled, OwnedMemory, value, Platform,
  IsPlatform, allocate_owned_memory, allocate_huge, map_huge, allocate_new,
  explicit_huge_page_bytes,
}

-- The region is not null, no smaller than asked for, aligned as it says, and its alignment is at
-- least the one asked for.
pub record IsRegion (bytes alignment : ℕ) (m : OwnedMemory) : Type 0 where
  pub not_null : m.base ≢ 0
  pub large : bytes ≤ m.bytes
  pub not_empty : 0 < bytes
  pub fits : m.base + m.bytes < size_mod
  pub pow2 : has_single_bit m.alignment ≡ true
  pub aligned : m.base % m.alignment ≡ 0
  pub stricter : alignment ≤ m.alignment

allocate_new-IsRegion :
    (env : Platform) (bytes alignment : ℕ) (m : OwnedMemory)
    → IsPlatform env
    → (bytes == 0) ≡ false
    → has_single_bit alignment ≡ true
    → allocate_new env bytes alignment ≡ value m
    → IsRegion bytes alignment m
unfolding allocate_new
allocate_new-IsRegion env bytes alignment m plat pos pow e =
    ground (arith, plat.new_aligned bytes alignment, plat.new_fits bytes alignment)

map_huge-IsRegion :
    (env : Platform) (bytes alignment mapping : ℕ) (m : OwnedMemory)
    → IsPlatform env
    → (bytes == 0) ≡ false
    → alignment ≤ explicit_huge_page_bytes
    → bytes ≤ mapping
    → map_huge env mapping ≡ value m
    → IsRegion bytes alignment m
unfolding map_huge has_single_bit
map_huge-IsRegion env bytes alignment mapping m plat pos le large e =
    elim (Option-cases (env.mmap_hugetlb mapping)) [
      | inl failed ↦ absurd (cc (failed, e))
      | inr (p, got) ↦ ground (
        arith,
        got,
        plat.map_not_null mapping p got,
        plat.map_aligned mapping p got,
        plat.map_fits mapping p got,
      )
    ]

allocate_huge-IsRegion :
    (env : Platform) (bytes alignment : ℕ) (m : OwnedMemory)
    → IsPlatform env
    → (bytes == 0) ≡ false
    → bytes ≤ size_max
    → allocate_huge env bytes alignment ≡ value m
    → IsRegion bytes alignment m
unfolding allocate_huge
allocate_huge-IsRegion env bytes alignment m plat pos small e =
    elim (Option-cases (checked_round_to_multiple_of bytes explicit_huge_page_bytes)) [
      | inl failed ↦ ground arith
      | inr (mapping, got) ↦
          map_huge-IsRegion env bytes alignment mapping m plat pos (ground arith)
            (checked_round-le bytes explicit_huge_page_bytes mapping small (omega arith)
              (omega arith) got)
            (ground arith)
    ]

-- On any platform that keeps its promises, a region that `allocate_owned_memory` returns is not
-- null, holds at least the bytes asked for, does not run past the address space, and is aligned to
-- a power of two that is at least the alignment asked for.
pub allocate-IsRegion :
    (huge : HugePages) (env : Platform) (bytes alignment : ℕ) (m : OwnedMemory)
    → IsPlatform env
    → bytes ≤ size_max
    → allocate_owned_memory huge env bytes alignment ≡ value m
    → IsRegion bytes alignment m
unfolding allocate_owned_memory
allocate-IsRegion enabled env bytes alignment m plat small e =
    allocate_huge-IsRegion env bytes alignment m plat (ground arith) small (ground arith)
allocate-IsRegion disabled env bytes alignment m plat small e =
    allocate_new-IsRegion env bytes alignment m plat (ground arith) (ground arith) (ground arith)

-- Where the platform gives no memory for such a request: `operator new[]` returns null; or there are
-- no huge pages, the request is aligned more strictly than they are, its bytes round up to no
-- `size_t`, or `mmap` fails on the rounded bytes.
abbrev pub GivesNone : HugePages → Platform → (bytes alignment : ℕ) → Type 0
GivesNone disabled env bytes alignment = env.new_nothrow bytes alignment ≡ 0
GivesNone enabled env bytes alignment =
    (env.linux ≡ false)
    ⊎ (explicit_huge_page_bytes < alignment)
    ⊎ (checked_round_to_multiple_of bytes explicit_huge_page_bytes ≡ none)
    ⊎ ((mapping : ℕ) × (checked_round_to_multiple_of bytes explicit_huge_page_bytes ≡ some mapping)
        × (env.mmap_hugetlb mapping ≡ none))

-- A proper request fails only there.
pub allocate-GivesNone :
    (huge : HugePages) (env : Platform) (bytes alignment : ℕ) (why : OwnedMemoryError)
    → bytes ≢ 0
    → 8 ≤ alignment
    → has_single_bit alignment ≡ true
    → allocate_owned_memory huge env bytes alignment ≡ unexpected why
    → GivesNone huge env bytes alignment
unfolding allocate_owned_memory allocate_new allocate_huge map_huge
allocate-GivesNone disabled env bytes alignment why some_bytes strict pow e = ground arith
allocate-GivesNone enabled env bytes alignment why some_bytes strict pow e =
    let test : (bytes == 0) ≡ false = ground arith in
    elim (Bool-cases env.linux) [
      | inr other ↦ inl other
      | inl linux ↦ elim (dec_lt explicit_huge_page_bytes alignment) [
        | yes over ↦ inr (inl over)
        | no fine ↦
            elim (Option-cases (checked_round_to_multiple_of bytes explicit_huge_page_bytes)) [
              | inl wide ↦ inr (inr (inl wide))
              | inr (mapping, rounded) ↦ elim (Option-cases (env.mmap_hugetlb mapping)) [
                | inl failed ↦ inr (inr (inr (mapping, rounded, failed)))
                | inr (p, got) ↦ absurd (ground (arith, got))
              ]
            ]
      ]
    ]

-- Of a region for a multiple of 16 bytes, aligned to 16, base and size are multiples of 16.
map_huge-granular :
    (env : Platform) (mapping : ℕ) (m : OwnedMemory)
    → IsPlatform env
    → mapping % 16 ≡ 0
    → map_huge env mapping ≡ value m
    → (m.base % 16 ≡ 0) × (m.bytes % 16 ≡ 0)
unfolding map_huge
map_huge-granular env mapping m plat whole e = elim (Option-cases (env.mmap_hugetlb mapping)) [
  | inl failed ↦ absurd (cc (failed, e))
  | inr (p, got) ↦ ground (arith, got, plat.map_aligned mapping p got)
]

allocate_huge-granular :
    (env : Platform) (bytes : ℕ) (m : OwnedMemory)
    → IsPlatform env
    → bytes ≤ size_max
    → allocate_huge env bytes 16 ≡ value m
    → (m.base % 16 ≡ 0) × (m.bytes % 16 ≡ 0)
unfolding allocate_huge
allocate_huge-granular env bytes m plat small e =
    elim (Option-cases (checked_round_to_multiple_of bytes explicit_huge_page_bytes)) [
      | inl failed ↦ ground arith
      | inr (mapping, got) ↦
          let (rounded, least, gives) =
            checked_round-least bytes explicit_huge_page_bytes small (omega arith) (omega arith) in
          let same : rounded ≡ mapping = ground arith in
          let huge_whole : mapping % 2097152 ≡ 0 = ground (arith, least.0) in
          map_huge-granular env mapping m plat (omega arith) (ground arith)
    ]

pub allocate-granular :
    (huge : HugePages) (env : Platform) (bytes : ℕ) (m : OwnedMemory)
    → IsPlatform env
    → bytes % 16 ≡ 0
    → bytes ≤ size_max
    → allocate_owned_memory huge env bytes 16 ≡ value m
    → (m.base % 16 ≡ 0) × (m.bytes % 16 ≡ 0)
unfolding allocate_owned_memory allocate_new
allocate-granular enabled env bytes m plat whole small e =
    allocate_huge-granular env bytes m plat small (ground arith)
allocate-granular disabled env bytes m plat whole small e =
    ground (arith, plat.new_aligned bytes 16)
