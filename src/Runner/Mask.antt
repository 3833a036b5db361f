-- ===== src/Runner/Mask.antt =====
-- lib/runner.hpp: the mask of the bins that are not empty, and the search in it.
pub mod Digits
pub mod Search
pub mod Marks
use allocazam.Prelude.{
  ℕ, zero, suc, ◌+◌, ◌-◌, ◌*◌, ◌/◌, ◌%◌, ◌^◌, bit_and, bit_or, Bool, true, false, leb, ltb, ◌==◌,
  if◌then◌else◌,
}
use allocazam.Word.{size_mod}
use allocazam.Word.Pow2.{and_not}
use allocazam.Runner.Sizes.{bin_count}

-- `_bin_nonempty_mask`: its words by their index.
abbrev pub Mask : Type 0
Mask = ℕ → ℕ

abbrev pub bin_word_bits : ℕ
bin_word_bits = 64

abbrev pub bin_word_count : ℕ
bin_word_count = 9

abbrev pub bin_word_index : ℕ → ℕ
bin_word_index idx = idx / bin_word_bits

abbrev pub bin_word_bit : ℕ → ℕ
bin_word_bit idx = 2 ^ (idx % bin_word_bits)

unfoldable pub set_bin_nonempty : Mask → ℕ → Mask
set_bin_nonempty mask idx w =
    if w == bin_word_index idx then bit_or (mask w) (bin_word_bit idx) else mask w

unfoldable pub set_bin_empty : Mask → ℕ → Mask
set_bin_empty mask idx w =
    if w == bin_word_index idx then and_not (mask w) (bin_word_bit idx) else mask w

countr_zero_from : ℕ → ℕ → ℕ
countr_zero_from zero x = 0
countr_zero_from (suc rounds) x =
    let rest = countr_zero_from rounds (x / 2) in if x % 2 == 1 then 0 else suc rest

-- `std::countr_zero` at `size_t`
unfoldable pub countr_zero : ℕ → ℕ
unfolding countr_zero_from
countr_zero x = countr_zero_from 64 x

-- The loop of `_first_nonempty_bin_from`, over at most as many words as it is given.
unfoldable pub search_words : ℕ → Mask → (word_idx word : ℕ) → ℕ
search_words zero mask word_idx word = bin_count
search_words (suc words) mask word_idx word =
    let rest = search_words words mask (suc word_idx) (mask (suc word_idx)) in
    if word == 0
    then (if leb bin_word_count (suc word_idx) then bin_count else rest)
    else (let idx = word_idx * bin_word_bits + countr_zero word in
        if ltb idx bin_count then idx else bin_count)

-- The mask has no more words than rounds are given.
unfoldable pub first_nonempty_bin_from : Mask → ℕ → ℕ
first_nonempty_bin_from mask start_idx =
    if leb bin_count start_idx
    then bin_count
    else search_words bin_word_count mask (bin_word_index start_idx)
        (bit_and (mask (bin_word_index start_idx)) (size_mod - 2 ^ (start_idx % bin_word_bits)))
