-- ===== src/Runner/Sizes/Payload.antt =====
-- The run that a payload needs.
use allocazam.Prelude.{
  ℕ, ◌+◌, ◌*◌, ◌/◌, ◌%◌, ◌≤◌, ◌<◌, ◌≡◌, max, none, some, refl, ◌∙◌, ◌⊎◌, inl, inr, arith,
}
use allocazam.Word.{size_max, checked_add}
use native.Mathlib.Decide.{dec_le}
use allocazam.Word.Checked.{checked_add-eq}
use allocazam.Word.Pow2.{and_not, and_not-pow2}
use allocazam.Runner.Sizes.{
  normalized_run_bytes_for_payload, run_alignment, run_header_size, min_free_run_size,
}

clear_low : (x : ℕ) → x ≤ size_max → and_not x 15 ≡ x / 16 * 16
clear_low x h = and_not-pow2 4 x (omega arith) h

-- A payload of a `size_t` number of bytes gets the least run size, of at least the smallest free
-- run, that is a multiple of the alignment and holds a header and the payload; `false` is
-- returned exactly where that is not a `size_t`.
pub normalized-least :
    (payload : ℕ)
    → payload ≤ size_max
    → ((normalized_run_bytes_for_payload payload ≡ none) × (size_max < payload + 31))
      ⊎ ((r : ℕ) × (normalized_run_bytes_for_payload payload ≡ some r)
          × (r % run_alignment ≡ 0)
          × (payload + run_header_size ≤ r)
          × (min_free_run_size ≤ r)
          × (r ≤ max min_free_run_size (payload + run_header_size + 15))
          × (r ≤ size_max))
unfolding normalized_run_bytes_for_payload
normalized-least payload h = elim (dec_le (payload + 31) size_max) [
  | yes fits ↦
      let rounded = (payload + 15) / 16 * 16 in
      let cleared : and_not (payload + 15) 15 ≡ rounded = clear_low (payload + 15) (omega arith) in
      let padded : and_not (16 + rounded + 15) 15 ≡ 16 + rounded =
        clear_low (16 + rounded + 15) (omega arith) ∙ (omega arith) in
      let first : checked_add payload 15 ≡ some (payload + 15) =
        ground (arith, checked_add-eq payload 15) in
      let second : checked_add 16 rounded ≡ some (16 + rounded) =
        ground (arith, checked_add-eq 16 rounded) in
      let third : checked_add (16 + rounded) 15 ≡ some (16 + rounded + 15) =
        ground (arith, checked_add-eq (16 + rounded) 15) in
      inr (
        max (16 + rounded) 48,
        rw (normalized_run_bytes_for_payload, first, cleared, second, third, padded) refl,
        omega arith,
        omega arith,
        omega arith,
        omega arith,
        omega arith,
      )
  | no large ↦ elim (dec_le (payload + 15) size_max) [
    | no larger ↦
        let first : checked_add payload 15 ≡ none = ground (arith, checked_add-eq payload 15) in
        inl (rw (normalized_run_bytes_for_payload, first) refl, omega arith)
    | yes fits ↦
        let rounded = (payload + 15) / 16 * 16 in
        let cleared : and_not (payload + 15) 15 ≡ rounded =
          clear_low (payload + 15) (omega arith) in
        let first : checked_add payload 15 ≡ some (payload + 15) =
          ground (arith, checked_add-eq payload 15) in
        let second : checked_add 16 rounded ≡ none = ground (arith, checked_add-eq 16 rounded) in
        inl (rw (normalized_run_bytes_for_payload, first, cleared, second) refl, omega arith)
  ]
]
