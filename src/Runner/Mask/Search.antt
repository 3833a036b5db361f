-- ===== src/Runner/Mask/Search.antt =====
-- The search finds the first bin that the mask marks.
use native.Mathlib.Nat.{div-mul-le_self}
use native.Mathlib.Decide.{ℕ_discrete, dec_le, dec_lt}
use allocazam.Prelude.{
  ℕ, zero, suc, ◌+◌, ◌-◌, ◌*◌, ◌/◌, ◌%◌, ◌^◌, ◌≤◌, ◌<◌, ◌≡◌, bit_and, refl, sym, ==_self, true,
  false, ◌∙◌, arith, if◌then◌else◌, ◌==◌, leb, ltb, ◌⊎◌, inl, inr,
}
use allocazam.Word.{size_max, size_mod}
use allocazam.Word.Pow2.{and_not, and_not-pow2, pow2_pos}
use allocazam.Runner.Sizes.{bin_count}
use allocazam.Runner.Mask.{Mask, countr_zero, search_words, first_nonempty_bin_from, bin_word_count}
use allocazam.Runner.Mask.Digits.{digit, digit-none, countr_zero-digit, cleared-digit}

-- Bin `idx` is marked.
abbrev pub bin_digit : Mask → ℕ → ℕ
bin_digit mask idx = digit (mask (idx / 64)) (idx % 64)

-- What the loop reads of bin `idx`: the current word in place of the mask's.
abbrev seen : Mask → (word_idx word idx : ℕ) → ℕ
seen mask word_idx word idx =
    if idx / 64 == word_idx then digit word (idx % 64) else bin_digit mask idx

-- `r` is the first bin that is read as marked, from the current word on, or no bin is.
abbrev pub IsFirst : (ℕ → ℕ) → (start r : ℕ) → Type 0
IsFirst marks start r =
    ((idx : ℕ) → start ≤ idx → idx < r → marks idx ≡ 0)
    × ((r ≡ bin_count) ⊎ ((start ≤ r) × (r < bin_count) × (marks r ≡ 1)))

module _ (mask : Mask) (words_fit : (w : ℕ) → mask w ≤ size_max) where
  in_word :
      (word_idx word c : ℕ)
      → c < 64
      → digit word c ≡ 1
      → ((j : ℕ) → j < c → digit word j ≡ 0)
      → let idx = word_idx * 64 + c in
        IsFirst
          (seen mask word_idx word)
          (word_idx * 64)
          (if ltb idx bin_count then idx else bin_count)
  in_word word_idx word c small set below =
      let place : (word_idx * 64 + c) / 64 ≡ word_idx = omega arith in
      let offset : (word_idx * 64 + c) % 64 ≡ c = omega arith in
      (
        λ idx from lt.
            let here : idx / 64 ≡ word_idx = ground arith in
            let lower : idx % 64 < c = ground arith in
            rw (here, ==_self word_idx) (below (idx % 64) lower),
        elim (dec_lt (word_idx * 64 + c) bin_count) [
          | yes inside ↦
              let test : ltb (word_idx * 64 + c) bin_count ≡ true = ground arith in
              rw test (inr (omega arith, inside, rw (place, ==_self word_idx, offset) set))
          | no outside ↦
              let test : ltb (word_idx * 64 + c) bin_count ≡ false = ground arith in
              rw test (inl refl)
        ],
      )

  -- The mask's own word is read like the mask.
  seen-own : (word_idx idx : ℕ) → seen mask word_idx (mask word_idx) idx ≡ bin_digit mask idx
  seen-own word_idx idx = elim (ℕ_discrete (idx / 64) word_idx) [
    | yes here ↦ rw (here, ==_self word_idx) refl
    | no other ↦ let test : (idx / 64 == word_idx) ≡ false = ground arith in rw test refl
  ]

  -- Past a word that is 0.
  pass_word :
      (word_idx r : ℕ)
      → IsFirst (seen mask (suc word_idx) (mask (suc word_idx))) (suc word_idx * 64) r
      → IsFirst (seen mask word_idx 0) (word_idx * 64) r
  pass_word word_idx r (unset, found) = (
    λ idx from below. elim (ℕ_discrete (idx / 64) word_idx) [
      | yes here ↦ rw (here, ==_self word_idx) (digit-none (idx % 64))
      | no later ↦
          let test : (idx / 64 == word_idx) ≡ false = ground arith in
          rw test (sym (seen-own (suc word_idx) idx) ∙ unset idx (omega arith) below)
    ],
    elim found [
      | inl none_found ↦ inl none_found
      | inr (from, inside, set) ↦
          let test : (r / 64 == word_idx) ≡ false = ground arith in
          inr (omega arith, inside, rw test (sym (seen-own (suc word_idx) r) ∙ set))
    ],
  )

  search_words-IsFirst :
      (words word_idx word : ℕ)
      → word ≤ size_max
      → word_idx < bin_word_count
      → bin_word_count ≤ word_idx + words
      → IsFirst (seen mask word_idx word) (word_idx * 64) (search_words words mask word_idx word)
  unfolding search_words
  search_words-IsFirst zero word_idx word fits lt enough = absurd (omega arith)
  search_words-IsFirst (suc words) word_idx word fits lt enough = elim (ℕ_discrete word 0) [
    | no ne ↦
        let test : (word == 0) ≡ false = ground arith in
        let (small, set, below) = countr_zero-digit word ne fits in
        rw test (in_word word_idx word (countr_zero word) small set below)
    | yes none_set ↦ elim (dec_le bin_word_count (suc word_idx)) [
      | yes last ↦
          let test : leb bin_word_count (suc word_idx) ≡ true = ground arith in
          rw (none_set, test)
            (
              λ idx from below.
                  let here : idx / 64 ≡ word_idx = omega arith in
                  rw (here, ==_self word_idx) (digit-none (idx % 64)),
              inl refl,
            )
      | no more ↦
          let test : leb bin_word_count (suc word_idx) ≡ false = ground arith in
          let next =
            search_words-IsFirst words (suc word_idx) (mask (suc word_idx))
              (words_fit (suc word_idx)) (omega arith) (omega arith) in
          rw (none_set, test)
            (pass_word word_idx (search_words words mask (suc word_idx) (mask (suc word_idx))) next)
    ]
  ]

module _ (mask : Mask) (words_fit : (w : ℕ) → mask w ≤ size_max) (start : ℕ)
    (inside : start < bin_count) where
  first_word : ℕ
  first_word = bit_and (mask (start / 64)) (size_mod - 2 ^ (start % 64))

  first_word-eq : first_word ≡ mask (start / 64) / 2 ^ (start % 64) * 2 ^ (start % 64)
  unfolding first_word and_not
  first_word-eq =
      let mask_eq : size_mod - 2 ^ (start % 64) ≡ size_max - (2 ^ (start % 64) - 1) =
        omega (arith, pow2_pos (start % 64)) in
      rw mask_eq
        (and_not-pow2 (start % 64) (mask (start / 64)) (omega arith) (words_fit (start / 64)))

  first_word-le : first_word ≤ size_max
  first_word-le = rw first_word-eq (
      omega (arith, words_fit (start / 64), div-mul-le_self (mask (start / 64)) (2 ^ (start % 64))))

  -- In the first word the bins before the start are read as not marked, the others as the mask's.
  seen-first :
      (idx : ℕ)
      → seen mask (start / 64) first_word idx ≡ (
          if idx / 64 == start / 64
          then (if ltb (idx % 64) (start % 64) then 0 else bin_digit mask idx)
          else bin_digit mask idx)
  seen-first idx = elim (ℕ_discrete (idx / 64) (start / 64)) [
    | yes here ↦
        rw (here, ==_self (start / 64), first_word-eq)
          (cleared-digit (start % 64) (mask (start / 64)) (idx % 64))
    | no other ↦ let test : (idx / 64 == start / 64) ≡ false = ground arith in rw test refl
  ]

  seen-IsFirst :
      (r : ℕ)
      → IsFirst (seen mask (start / 64) first_word) (start / 64 * 64) r
      → IsFirst (bin_digit mask) start r
  seen-IsFirst r (unset, found) = (
    λ idx from below. ground (arith, seen-first idx, unset idx (omega arith) below),
    elim found [
      | inl none_found ↦ inl none_found
      | inr (from, under, set) ↦
          inr (ground (arith, seen-first r, set), under, ground (arith, seen-first r, set))
    ],
  )

  search-IsFirst :
      IsFirst (bin_digit mask) start (search_words bin_word_count mask (start / 64) first_word)
  search-IsFirst = seen-IsFirst (search_words bin_word_count mask (start / 64) first_word) (
      search_words-IsFirst mask words_fit bin_word_count (start / 64) first_word first_word-le
        (omega arith) (omega arith))

-- On a mask of `size_t` words, the search from a bin gives the first bin from there on that the mask
-- marks, or, exactly if it marks none, the number of bins.
pub first_nonempty_bin_from-IsFirst :
    (mask : Mask) (start : ℕ)
    → ((w : ℕ) → mask w ≤ size_max)
    → IsFirst (bin_digit mask) start (first_nonempty_bin_from mask start)
unfolding first_nonempty_bin_from first_word
first_nonempty_bin_from-IsFirst mask start words_fit = elim (dec_le bin_count start) [
  | yes past ↦
      let test : leb bin_count start ≡ true = ground arith in
      rw test (λ idx from below. absurd (omega arith), inl refl)
  | no inside ↦
      let test : leb bin_count start ≡ false = ground arith in
      rw test (search-IsFirst mask words_fit start (omega arith))
]
