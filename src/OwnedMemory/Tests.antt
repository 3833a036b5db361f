-- ===== src/OwnedMemory/Tests.antt =====
-- A platform that keeps its promises, and the regions that it gives.
use native.Mathlib.Nat.{mul-mod_right}
use allocazam.Prelude.{
  ℕ, ◌+◌, ◌*◌, ◌^◌, ◌%◌, ◌≡◌, ◌≢◌, ◌<◌, refl, true, ◌&&◌, none, some, arith, leb, if◌then◌else◌,
}
use allocazam.Word.{checked_add, checked_round_to_multiple_of}
use allocazam.Word.Pow2.{has_single_bit}
use allocazam.OwnedMemory.{
  enabled, Platform, IsPlatform, allocate_owned_memory, release_owned_memory, unmapped,
}
use allocazam.OwnedMemory.Laws.{IsRegion, allocate-IsRegion}

abbrev pub new_small : ℕ → ℕ → ℕ
new_small bytes alignment = if leb bytes (2 ^ 20) && leb alignment 4096 then alignment * 4096 else 0

abbrev pub small_platform : Platform
small_platform = record {
  linux = true;
  new_nothrow = new_small;
  mmap_hugetlb = λ bytes. if leb bytes (2 ^ 30) then some (2 ^ 24) else none;
}

new_small-mod :
    (bytes alignment : ℕ)
    → new_small bytes alignment ≢ 0
    → new_small bytes alignment % alignment ≡ 0
new_small-mod bytes alignment h = ground (arith, mul-mod_right alignment 4096)

new_small-lt :
    (bytes alignment : ℕ)
    → new_small bytes alignment ≢ 0
    → new_small bytes alignment + bytes < 2 ^ 64
new_small-lt bytes alignment h = ground arith

pub small_platform-IsPlatform : IsPlatform small_platform
small_platform-IsPlatform = record {
  new_aligned = new_small-mod;
  new_fits = new_small-lt;
  map_not_null = λ bytes p e. ground arith;
  map_aligned = λ bytes p e. ground arith;
  map_fits = λ bytes p e. ground arith;
}

allocate-IsRegion_example :
    IsRegion 5000000 16 (record { base = 2 ^ 24; bytes = 6291456; alignment = 2 ^ 21 })
unfolding allocate_owned_memory has_single_bit checked_round_to_multiple_of checked_add
allocate-IsRegion_example =
    allocate-IsRegion enabled small_platform 5000000 16
      (record { base = 2 ^ 24; bytes = 6291456; alignment = 2 ^ 21 }) small_platform-IsPlatform
      (omega arith) refl

huge_release :
    release_owned_memory enabled small_platform
      (record { base = 2 ^ 24; bytes = 6291456; alignment = 2 ^ 21 })
    ≡ unmapped (2 ^ 24) 6291456
unfolding release_owned_memory
huge_release = refl
