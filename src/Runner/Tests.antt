-- ===== src/Runner/Tests.antt =====
-- A runner over 1024 bytes of the caller, and sizes.
use allocazam.Prelude.{
  ℕ, ◌%◌, ◌^◌, ◌≤◌, ◌<◌, ◌≡◌, refl, true, false, Option, none, some, ◌⊎◌, inl, arith, ◌==◌,
  if◌then◌else◌,
}
use allocazam.Word.{size_max, checked_add}
use allocazam.Word.Pow2.{std_align, and_not, align_up_pow2}
use allocazam.Memory.{Memory}
use allocazam.Exception.{Outcome, ok, throw}
use allocazam.OwnedMemory.{disabled, allocate_owned_memory}
use allocazam.OwnedMemory.Tests.{small_platform}
use allocazam.Runner.Sizes.{
  normalized_run_bytes_for_payload, bin_index_for, bit_width, pack, size_field, flag, set_prev_free,
  run_alignment, min_free_run_size, flag_is_free, flag_prev_is_free,
}
use allocazam.Runner.Sizes.Payload.{normalized-least}
use allocazam.Runner.Sizes.Bins.{bin_index_for-fits}
use allocazam.Runner.Sizes.Word.{fields-pack}
use allocazam.Runner.Mask.{
  Mask, first_nonempty_bin_from, search_words, countr_zero, set_bin_nonempty, set_bin_empty,
}
use allocazam.Runner.Mask.Search.{IsFirst, bin_digit, first_nonempty_bin_from-IsFirst}
use allocazam.Runner.Runs.{
  Runner, find_fit, fit_from, fit_in_bin, is_free, link_free, mark_prev_free, next_run,
  prev_is_free, prev_run, run_size, set_header, unlink_free, write_footer,
}
use allocazam.Runner.Chunks.{
  Setup, construct_external, allocate_bytes, finish, initialize_free_run, or_deferred, or_drain,
  or_grow,
}
use allocazam.Runner.Calls.{
  deallocate_bytes, allocate_from_free_run, drain_remote, join_next, join_prev, make_free, replay,
  split_run,
}

normalized-least_example :
    ((normalized_run_bytes_for_payload 100 ≡ none) × (size_max < 131))
    ⊎ ((r : ℕ) × (normalized_run_bytes_for_payload 100 ≡ some r)
        × (r % run_alignment ≡ 0)
        × (116 ≤ r)
        × (min_free_run_size ≤ r)
        × (r ≤ 131)
        × (r ≤ size_max))
normalized-least_example = normalized-least 100 (omega arith)

later : bin_index_for 4128 < bin_index_for 8208
unfolding bin_index_for bit_width align_up_pow2 and_not
later = omega arith

bin_index_for-fits_example : 4128 ≤ 8208
bin_index_for-fits_example =
    bin_index_for-fits 4128 8208 refl refl (omega arith) (omega arith) (inl later)

fields-pack_example :
    (size_field (pack 112 true false) ≡ 112)
    × (flag (pack 112 true false) flag_is_free ≡ true)
    × (flag (pack 112 true false) flag_prev_is_free ≡ false)
    × (set_prev_free (pack 112 true false) true ≡ pack 112 true true)
fields-pack_example = fields-pack 112 true false true refl (omega arith)

-- Bins 70 and 500.
abbrev two_marked : Mask
two_marked w = if w == 1 then 64 else if w == 7 then 2 ^ 52 else 0

first_nonempty_bin_from-IsFirst_example :
    IsFirst (bin_digit two_marked) 71 (first_nonempty_bin_from two_marked 71)
first_nonempty_bin_from-IsFirst_example =
    first_nonempty_bin_from-IsFirst two_marked 71 (λ w. ground arith)

first_from_seventy_one : first_nonempty_bin_from two_marked 71 ≡ 500
unfolding first_nonempty_bin_from search_words countr_zero
first_from_seventy_one = refl

abbrev small : Setup
small = record {
  can_grow = false;
  huge = disabled;
  page = 4096;
  nodes = λ k. false;
  platforms = λ k. small_platform;
}

abbrev zeros : Memory
zeros a = 0

-- The payload of an allocation, if it returns.
abbrev payload : Option (Runner × Outcome ℕ) → Option ℕ
payload (some (r, ok p)) = some p
payload _ = none

abbrev after :
    Option (Runner × Outcome ℕ)
    → (Runner → Option (Runner × Outcome ℕ))
    → Option (Runner × Outcome ℕ)
after (some (r, ok p)) next = next r
after result next = result

abbrev on : Outcome Runner → (Runner → Option (Runner × Outcome ℕ)) → Option (Runner × Outcome ℕ)
on (ok r) next = next r
on (throw why) next = none

-- Two allocations, the first one freed, then the second: their runs and the rest have joined again
-- into one that holds all 992 bytes.
joined_again :
    payload (
      on (construct_external small 64 4096 1024 zeros) λ r.
        after (allocate_bytes small r 100 16) λ r.
          after
            (allocate_bytes small r 50 16)
            λ r. allocate_bytes small (deallocate_bytes (deallocate_bytes r 4112) 4240) 992 16)
    ≡ some 4112
unfolding construct_external std_align allocate_bytes normalized_run_bytes_for_payload checked_add
    and_not find_fit fit_from first_nonempty_bin_from bin_index_for align_up_pow2 search_words
    initialize_free_run link_free set_bin_nonempty run_size size_field allocate_owned_memory
    allocate_from_free_run deallocate_bytes drain_remote join_next join_prev make_free replay
    split_run finish or_deferred or_drain or_grow countr_zero set_bin_empty fit_in_bin is_free
    mark_prev_free next_run prev_is_free prev_run set_header unlink_free write_footer bit_width flag
    pack set_prev_free
joined_again = refl
