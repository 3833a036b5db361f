-- ===== src/Exclusive/Allocator.antt =====
-- lib/allocazam.hpp: the `exclusive` specialisations of `allocazam_std_state` and
-- `allocazam_std_allocator`. An operation returns the resource beside its result.
pub mod Calls
pub mod States
use allocazam.Prelude.{
  ℕ, ◌-◌, ◌*◌, ◌/◌, ◌≡◌, Bool, true, false, ◌&&◌, ◌||◌, Option, none, some, max, ltb, leb, ◌==◌,
  if◌then◌else◌,
}
use allocazam.Word.{size_max, wrap, checked_mul}
use allocazam.Word.Pow2.{std_align}
use allocazam.Layout.{Layout}
use allocazam.OwnedMemory.{HugePages, OwnedMemory, Platform, max_align, own_memory}
use allocazam.Exception.{
  Exception, bad_alloc, bad_array_new_length, invalid_argument, Outcome, ok, throw, throw_if,
  or_throw, ◌>>=◌, ◌>>◌,
}
use allocazam.Exclusive.{Resource, construct, claim, release}
use allocazam.Exclusive

-- The fixed state, over memory that it owns.
pub record FixedState : Type 0 where
  pub backing : OwnedMemory
  pub resource : Resource
  pub element_capacity : ℕ

unfoldable pub fixed_config : Layout → ℕ → Outcome ℕ
fixed_config T element_capacity = do
  throw_if (element_capacity == 0) (invalid_argument "exclusive state capacity must not be zero")
  or_throw (checked_mul element_capacity T.size) bad_array_new_length

unfoldable pub fixed_state : HugePages → Platform → Layout → ℕ → Outcome FixedState
fixed_state huge env T element_capacity = do
  usable_bytes ← fixed_config T element_capacity
  backing ← own_memory huge env usable_bytes (max T.align max_align)
  resource ← construct backing.base usable_bytes backing.alignment
  ok (record { backing = backing; resource = resource; element_capacity = element_capacity })

-- The noheap state, over a span of the caller.
pub record NoheapState : Type 0 where
  pub resource : Resource
  pub element_capacity : ℕ

pub record Config : Type 0 where
  pub base : ℕ
  pub usable_bytes : ℕ
  pub alignment : ℕ
  pub element_capacity : ℕ

unfoldable pub noheap_config : Layout → (data_begin size : ℕ) → Outcome Config
noheap_config T data_begin size = do
  throw_if (size == 0) (invalid_argument "exclusive state backing must not be empty")
  (aligned, space) ←
      or_throw (std_align (max T.align max_align) T.size data_begin size)
        (invalid_argument "exclusive state backing cannot satisfy value alignment")
  let element_capacity = space / T.size
  throw_if (element_capacity == 0)
      (invalid_argument "exclusive state backing is too small for one value")
  ok (record {
    base = aligned;
    usable_bytes = wrap (element_capacity * T.size);
    alignment = max T.align max_align;
    element_capacity = element_capacity;
  })

unfoldable pub noheap_state : Layout → (data_begin size : ℕ) → Outcome NoheapState
noheap_state T data_begin size = do
  cfg ← noheap_config T data_begin size
  resource ← construct cfg.base cfg.usable_bytes cfg.alignment
  ok (record { resource = resource; element_capacity = cfg.element_capacity })

-- The allocator.
unfoldable pub theoretical_max_size : Layout → ℕ
theoretical_max_size T = size_max / T.size

unfoldable pub max_size : Layout → Resource → ℕ
max_size T r = if leb T.align r.effective_alignment then r.usable_bytes / T.size else 0

-- `if (raw == nullptr) throw std::bad_alloc{}`
abbrev pub or_bad_alloc : Resource × ℕ → Resource × Outcome ℕ
or_bad_alloc (r, raw) = (r, if raw == 0 then throw bad_alloc else ok raw)

unfoldable pub allocate : Layout → Resource → ℕ → Resource × Outcome ℕ
unfolding theoretical_max_size
allocate T r n =
    if n == 0
    then (r, ok 0)
    else if ltb (theoretical_max_size T) n
    then (r, throw bad_array_new_length)
    else elim (checked_mul n T.size) [
      | none ↦ (r, throw bad_array_new_length)
      | some bytes ↦ or_bad_alloc (claim r bytes bytes T.align)
    ]

abbrev counted : ℕ → Resource × ℕ → Resource × Outcome (ℕ × ℕ)
counted count (r, raw) = (r, if raw == 0 then throw bad_alloc else ok (raw, count))

unfoldable pub allocate_at_least : Layout → Resource → ℕ → Resource × Outcome (ℕ × ℕ)
unfolding theoretical_max_size
allocate_at_least T r n =
    if n == 0
    then (r, ok (0, 0))
    else if ltb (theoretical_max_size T) n
    then (r, throw bad_array_new_length)
    else elim (checked_mul n T.size) [
      | none ↦ (r, throw bad_array_new_length)
      | some minimum_bytes ↦
          let returned_count = r.usable_bytes / T.size in
          if ltb returned_count n || ltb r.effective_alignment T.align
          then (r, throw bad_alloc)
          else counted returned_count
              (claim r minimum_bytes (wrap (returned_count * T.size)) T.align)
    ]

unfoldable pub deallocate : Layout → Resource → ℕ → ℕ → Resource
deallocate T r pointer n =
    if pointer == 0 && n == 0
    then r
    else if pointer == 0 || n == 0
    then r
    else elim (checked_mul n T.size) [ none ↦ r | some bytes ↦ release r pointer bytes T.align ]

unfoldable pub expand : Layout → Resource → ℕ → ℕ → Resource × ℕ
expand T r pointer minimum_new_bytes =
    Exclusive.expand r pointer minimum_new_bytes (wrap (r.usable_bytes / T.size * T.size))
