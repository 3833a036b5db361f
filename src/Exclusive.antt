-- ===== src/Exclusive.antt =====
-- lib/exclusive_resource.hpp: a region that is claimed by one allocation at a time.
-- Asserts are those of a release build: they do nothing.
pub mod Claims
pub mod History
pub mod Allocator
mod Tests
use allocazam.Prelude.{ℕ, ◌≡◌, Bool, true, false, not, ◌&&◌, ◌||◌, ltb, leb, ◌==◌, if◌then◌else◌}
use allocazam.Word.Pow2.{has_single_bit, is_aligned}
use allocazam.Exception.{invalid_argument, Outcome, ok, throw, throw_if, ◌>>=◌, ◌>>◌}

pub record Resource : Type 0 where
  pub base : ℕ
  pub usable_bytes : ℕ
  pub effective_alignment : ℕ
  pub claimed_min_bytes : ℕ
  pub claimed_max_bytes : ℕ
  pub claimed_alignment : ℕ

-- The constructor.
unfoldable pub construct : ℕ → ℕ → ℕ → Outcome Resource
construct base usable_bytes effective_alignment = do
  throw_if (base == 0) (invalid_argument "exclusive resource base must not be null")
  throw_if (usable_bytes == 0) (invalid_argument "exclusive resource capacity must not be zero")
  throw_if (effective_alignment == 0 || not (has_single_bit effective_alignment))
      (invalid_argument "exclusive resource alignment must be a power of two")
  throw_if (not (is_aligned base effective_alignment))
      (invalid_argument "exclusive resource base does not satisfy its alignment")
  ok (record {
    base = base;
    usable_bytes = usable_bytes;
    effective_alignment = effective_alignment;
    claimed_min_bytes = 0;
    claimed_max_bytes = 0;
    claimed_alignment = 0;
  })

unfoldable pub claimed : Resource → Bool
claimed r = not (r.claimed_min_bytes == 0)

-- `claim`, with the pointer that it returns, 0 for null.
unfoldable pub claim : Resource → ℕ → ℕ → ℕ → Resource × ℕ
unfolding claimed
claim r minimum_bytes maximum_bytes alignment =
    if claimed r
      || minimum_bytes == 0
      || ltb maximum_bytes minimum_bytes
      || ltb r.usable_bytes maximum_bytes
      || alignment == 0
      || not (has_single_bit alignment)
      || ltb r.effective_alignment alignment
      || not (is_aligned r.base alignment)
    then (r, 0)
    else (
      record r {
        claimed_min_bytes = minimum_bytes;
        claimed_max_bytes = maximum_bytes;
        claimed_alignment = alignment;
      },
      r.base,
    )

unfoldable pub release : Resource → ℕ → ℕ → ℕ → Resource
unfolding claimed
release r pointer bytes alignment =
    if claimed r
      && pointer == r.base
      && leb r.claimed_min_bytes bytes
      && leb bytes r.claimed_max_bytes
      && alignment == r.claimed_alignment
    then record r { claimed_min_bytes = 0; claimed_max_bytes = 0; claimed_alignment = 0 }
    else r

-- `expand`, with the size that it returns.
unfoldable pub expand : Resource → ℕ → ℕ → ℕ → Resource × ℕ
unfolding claimed
expand r pointer minimum_new_bytes representable_capacity_bytes =
    if not (claimed r) || not (pointer == r.base)
    then (r, 0)
    else if leb minimum_new_bytes r.claimed_max_bytes
    then (r, r.claimed_max_bytes)
    else if ltb representable_capacity_bytes r.claimed_max_bytes
        || ltb r.usable_bytes representable_capacity_bytes
        || ltb representable_capacity_bytes minimum_new_bytes
    then (r, r.claimed_max_bytes)
    else (
      record r { claimed_max_bytes = representable_capacity_bytes },
      representable_capacity_bytes,
    )

unfoldable pub owns : Resource → ℕ → Bool
owns r pointer = pointer == r.base
