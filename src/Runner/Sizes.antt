-- ===== src/Runner/Sizes.antt =====
-- lib/runner.hpp: the sizes of runs, the words that hold them, and the bins by size.
pub mod Payload
pub mod Bins
pub mod Word
use allocazam.Prelude.{
  ℕ, zero, suc, ◌+◌, ◌-◌, ◌*◌, ◌/◌, ◌%◌, ◌^◌, min, max, bit_and, bit_or, Bool, true, false, not,
  Option, none, some, leb, ◌==◌, if◌then◌else◌,
}
use allocazam.Word.{checked_add}
use allocazam.Word.Pow2.{and_not, align_up_pow2}

-- `alignof(std::max_align_t)`
abbrev pub run_alignment : ℕ
run_alignment = 16

-- `sizeof(run_header)`
abbrev pub run_header_size : ℕ
run_header_size = 16

abbrev pub linear_bin_cutoff : ℕ
linear_bin_cutoff = 4096

abbrev pub linear_bin_count : ℕ
linear_bin_count = 512

abbrev pub bin_count : ℕ
bin_count = 536

-- A header, two links and a footer, rounded up to the alignment.
abbrev pub min_free_run_size : ℕ
min_free_run_size = 48

abbrev pub flag_is_free : ℕ
flag_is_free = 1

abbrev pub flag_prev_is_free : ℕ
flag_prev_is_free = 2

abbrev pub flag_mask : ℕ
flag_mask = 3

-- The out parameter is the value of the `some`; `false` is `none`.
unfoldable pub normalized_run_bytes_for_payload : ℕ → Option ℕ
normalized_run_bytes_for_payload payload_bytes =
    elim (checked_add payload_bytes (run_alignment - 1)) [
      | none ↦ none
      | some sum ↦
          let payload = and_not sum (run_alignment - 1) in
          elim (checked_add run_header_size payload) [
            | none ↦ none
            | some bytes ↦ elim (checked_add bytes (run_alignment - 1)) [
              | none ↦ none
              | some padded ↦ some (max (and_not padded (run_alignment - 1)) min_free_run_size)
            ]
          ]
    ]

bit_width_from : ℕ → ℕ → ℕ
bit_width_from zero x = 0
bit_width_from (suc rounds) x =
    let rest = bit_width_from rounds (x / 2) in if x == 0 then 0 else suc rest

-- `std::bit_width` at `size_t`
unfoldable pub bit_width : ℕ → ℕ
unfolding bit_width_from
bit_width x = bit_width_from 64 x

unfoldable pub bin_index_for : ℕ → ℕ
bin_index_for bytes =
    let aligned = align_up_pow2 (bit_or bytes 1) 8 in
    if leb aligned linear_bin_cutoff
    then aligned / 8 - 1
    else min (linear_bin_count + (bit_width (aligned - 1) - bit_width linear_bin_cutoff))
        (bin_count - 1)

unfoldable pub size_field : ℕ → ℕ
size_field size_and_flags = and_not size_and_flags flag_mask

unfoldable pub flag : ℕ → ℕ → Bool
flag size_and_flags bit = not (bit_and size_and_flags bit == 0)

unfoldable pub pack : ℕ → (is_free prev_is_free : Bool) → ℕ
pack bytes is_free prev_is_free =
    bit_or (bit_or bytes (if is_free then flag_is_free else 0))
      (if prev_is_free then flag_prev_is_free else 0)

-- The word that `_set_prev_free` leaves.
unfoldable pub set_prev_free : ℕ → Bool → ℕ
set_prev_free size_and_flags true =
    if flag size_and_flags flag_prev_is_free
    then size_and_flags
    else bit_or size_and_flags flag_prev_is_free
set_prev_free size_and_flags false =
    if flag size_and_flags flag_prev_is_free
    then and_not size_and_flags flag_prev_is_free
    else size_and_flags
