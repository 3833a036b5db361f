-- ===== src/Runner/Mask/Marks.antt =====
-- Marking a bin as not empty, and as empty.
use native.Mathlib.Nat.{pow-suc, pow-le-pow_right, mod-eq_of_lt}
use native.Mathlib.Decide.{ℕ_discrete}
use Prim.Native.Nat.{bit_and-bitwise}
use allocazam.Prelude.{
  ℕ, zero, suc, ◌-◌, ◌/◌, ◌%◌, ◌^◌, ◌≤◌, ◌<◌, ◌≡◌, refl, sym, ◌∙◌, ap, bit_and, bit_or, min, max,
  arith, false, if◌then◌else◌, ◌==◌, ==_self,
}
use allocazam.Prelude.Bits.{bit_or_step, bit_and_step, bit_or-zero, bit_and_low}
use allocazam.Word.{size_max}
use allocazam.Word.Pow2.{and_not, pow2_pos, pow2-lt}
use allocazam.Runner.Mask.{Mask, set_bin_nonempty, set_bin_empty}
use allocazam.Runner.Mask.Digits.{digit, digit-zero, digit-suc}
use allocazam.Runner.Mask.Search.{bin_digit}

or_parts :
    (w v : ℕ) → (bit_or w v / 2 ≡ bit_or (w / 2) (v / 2)) × (bit_or w v % 2 ≡ max (w % 2) (v % 2))
or_parts w v = (omega (arith, bit_or_step w v), omega (arith, bit_or_step w v))

and_parts :
    (w v : ℕ)
    → (bit_and w v / 2 ≡ bit_and (w / 2) (v / 2)) × (bit_and w v % 2 ≡ min (w % 2) (v % 2))
and_parts w v = (omega (arith, bit_and_step w v), omega (arith, bit_and_step w v))

doubled : (k : ℕ) → (2 ^ suc k / 2 ≡ 2 ^ k) × (2 ^ suc k % 2 ≡ 0)
doubled k = (omega (arith, pow-suc 2 k), omega (arith, pow-suc 2 k))

-- Setting digit `k`.
or-digit : (k w j : ℕ) → digit (bit_or w (2 ^ k)) j ≡ (if j == k then 1 else digit w j)
or-digit zero w zero = digit-zero (bit_or w 1) ∙ (or_parts w 1).1 ∙ omega arith
or-digit zero w (suc j) =
    let test : (suc j == 0) ≡ false = ground arith in
    let same : bit_or w 1 / 2 ≡ w / 2 = (or_parts w 1).0 ∙ bit_or-zero (w / 2) in
    rw test (digit-suc (bit_or w 1) j ∙ ap (λ x. digit x j) same ∙ sym (digit-suc w j))
or-digit (suc k) w zero =
    let test : (0 == suc k) ≡ false = ground arith in
    rw test (
      digit-zero (bit_or w (2 ^ suc k))
      ∙ omega (arith, or_parts w (2 ^ suc k), doubled k, digit-zero w))
or-digit (suc k) w (suc j) =
    let test : (suc j == suc k) ≡ (j == k) = ground arith in
    let half : bit_or w (2 ^ suc k) / 2 ≡ bit_or (w / 2) (2 ^ k) =
      (or_parts w (2 ^ suc k)).0 ∙ ap (λ x. bit_or (w / 2) x) (doubled k).0 in
    rw (test, digit-suc w j)
      (digit-suc (bit_or w (2 ^ suc k)) j ∙ ap (λ x. digit x j) half ∙ or-digit k (w / 2) j)

-- Clearing digit `k` of a word of `m` digits.
clear-digit :
    (m k w j : ℕ)
    → k < m
    → w < 2 ^ m
    → digit (bit_and w (2 ^ m - 1 - 2 ^ k)) j ≡ (if j == k then 0 else digit w j)
clear-digit zero k w j lt fits = absurd (omega arith)
clear-digit (suc m) zero w zero lt fits =
    digit-zero (bit_and w (2 ^ suc m - 1 - 1))
    ∙ omega (arith, and_parts w (2 ^ suc m - 1 - 1), doubled m)
clear-digit (suc m) zero w (suc j) lt fits =
    let test : (suc j == 0) ≡ false = ground arith in
    let mask : (2 ^ suc m - 1 - 1) / 2 ≡ 2 ^ m - 1 = omega (arith, pow-suc 2 m) in
    let low : w / 2 % 2 ^ m ≡ w / 2 = mod-eq_of_lt (omega (arith, pow-suc 2 m)) in
    let same : bit_and w (2 ^ suc m - 1 - 1) / 2 ≡ w / 2 =
      (and_parts w (2 ^ suc m - 1 - 1)).0
      ∙ ap (λ x. bit_and (w / 2) x) mask
      ∙ bit_and_low m (w / 2)
      ∙ low in
    rw test
      (digit-suc (bit_and w (2 ^ suc m - 1 - 1)) j ∙ ap (λ x. digit x j) same ∙ sym (digit-suc w j))
clear-digit (suc m) (suc k) w zero lt fits =
    let test : (0 == suc k) ≡ false = ground arith in
    let mask = 2 ^ suc m - 1 - 2 ^ suc k in
    let odd : mask % 2 ≡ 1 = omega (
      arith,
      pow-suc 2 m,
      pow-suc 2 k,
      pow2_pos k,
      pow-le-pow_right {n = 2} (omega arith) {i = suc k} {j = m} (omega arith),
    ) in
    rw test (digit-zero (bit_and w mask) ∙ omega (arith, and_parts w mask, odd, digit-zero w))
clear-digit (suc m) (suc k) w (suc j) lt fits =
    let test : (suc j == suc k) ≡ (j == k) = ground arith in
    let mask = 2 ^ suc m - 1 - 2 ^ suc k in
    let half_mask : mask / 2 ≡ 2 ^ m - 1 - 2 ^ k = omega (arith, pow-suc 2 m, pow-suc 2 k) in
    let half : bit_and w mask / 2 ≡ bit_and (w / 2) (2 ^ m - 1 - 2 ^ k) =
      (and_parts w mask).0 ∙ ap (λ x. bit_and (w / 2) x) half_mask in
    rw (test, digit-suc w j)
      (digit-suc (bit_and w mask) j
        ∙ ap (λ x. digit x j) half
        ∙ clear-digit m k (w / 2) j (omega arith) (omega (arith, pow-suc 2 m)))

or-lt : (m w v : ℕ) → w < 2 ^ m → v < 2 ^ m → bit_or w v < 2 ^ m
or-lt zero w v lt lt' =
    let none_set : w ≡ 0 = omega arith in
    let none_set' : v ≡ 0 = omega arith in rw (none_set, none_set') (omega arith)
or-lt (suc m) w v lt lt' = omega (
  arith,
  bit_or_step w v,
  or-lt m (w / 2) (v / 2) (omega (arith, pow-suc 2 m)) (omega (arith, pow-suc 2 m)),
  pow-suc 2 m,
)

and-lt : (m w v : ℕ) → w < 2 ^ m → bit_and w v < 2 ^ m
and-lt zero w v lt =
    let none_set : w ≡ 0 = omega arith in rw none_set (simp bit_and-bitwise (omega arith))
and-lt (suc m) w v lt =
    omega
      (arith, bit_and_step w v, and-lt m (w / 2) (v / 2) (omega (arith, pow-suc 2 m)), pow-suc 2 m)

-- The mask's words are words.
abbrev pub IsMask : Mask → Type 0
IsMask mask = (w : ℕ) → mask w ≤ size_max

module _ (mask : Mask) (fit : IsMask mask) (idx : ℕ) where
  small_bit : 2 ^ (idx % 64) < 2 ^ 64
  small_bit = omega (arith, pow2-lt (idx % 64) (omega arith))

  pub set_bin_nonempty-IsMask : IsMask (set_bin_nonempty mask idx)
  unfolding set_bin_nonempty
  set_bin_nonempty-IsMask w =
      ground (arith, fit w, or-lt 64 (mask w) (2 ^ (idx % 64)) (omega (arith, fit w)) small_bit)

  pub set_bin_empty-IsMask : IsMask (set_bin_empty mask idx)
  unfolding set_bin_empty and_not
  set_bin_empty-IsMask w =
      ground (arith, fit w, and-lt 64 (mask w) (size_max - 2 ^ (idx % 64)) (omega (arith, fit w)))

  -- The marked bin is marked, and the others are as before.
  pub set_bin_nonempty-digit :
      (i : ℕ) → bin_digit (set_bin_nonempty mask idx) i ≡ (if i == idx then 1 else bin_digit mask i)
  unfolding set_bin_nonempty
  set_bin_nonempty-digit i = elim (ℕ_discrete (i / 64) (idx / 64)) [
    | yes e ↦
        let same : (i % 64 == idx % 64) ≡ (i == idx) = ground arith in
        rw (e, ==_self (idx / 64)) (or-digit (idx % 64) (mask (idx / 64)) (i % 64) ∙ rw same refl)
    | no d ↦
        let test : (i / 64 == idx / 64) ≡ false = ground arith in
        let test' : (i == idx) ≡ false = ground arith in rw (test, test') refl
  ]

  pub set_bin_empty-digit :
      (i : ℕ) → bin_digit (set_bin_empty mask idx) i ≡ (if i == idx then 0 else bin_digit mask i)
  unfolding set_bin_empty and_not
  set_bin_empty-digit i = elim (ℕ_discrete (i / 64) (idx / 64)) [
    | yes e ↦
        let same : (i % 64 == idx % 64) ≡ (i == idx) = ground arith in
        rw (e, ==_self (idx / 64))
          (clear-digit 64 (idx % 64) (mask (idx / 64)) (i % 64) (omega arith)
              (omega (arith, fit (idx / 64)))
            ∙ rw same refl)
    | no d ↦
        let test : (i / 64 == idx / 64) ≡ false = ground arith in
        let test' : (i == idx) ≡ false = ground arith in rw (test, test') refl
  ]
