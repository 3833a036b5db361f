-- ===== src/Runner/Mask/Digits.antt =====
-- The digits of a mask's word, and `std::countr_zero`.
use native.Mathlib.Nat.{pow-suc, pow-succ', div-div-eq-div-mul, zero-div, mul_assoc}
use native.Mathlib.Decide.{ℕ_discrete}
use allocazam.Prelude.{
  ℕ, zero, suc, ◌*◌, ◌/◌, ◌%◌, ◌^◌, ◌≤◌, ◌<◌, ◌≡◌, ◌≢◌, refl, sym, false, ◌∙◌, ap, arith,
  if◌then◌else◌, ◌==◌, ltb,
}
use allocazam.Word.{size_max}
use allocazam.Runner.Mask.{countr_zero_from, countr_zero}

-- Digit `i` of a word.
abbrev pub digit : ℕ → ℕ → ℕ
digit w i = w / 2 ^ i % 2

pub digit-suc : (w i : ℕ) → digit w (suc i) ≡ digit (w / 2) i
digit-suc w i = ap (λ x. x % 2) (rw (pow-succ' 2 i) (sym (div-div-eq-div-mul w 2 (2 ^ i))))

pub digit-zero : (w : ℕ) → digit w 0 ≡ w % 2
digit-zero w = omega arith

-- The digit that `countr_zero` counts up to is set,
countr_zero_from-digit :
    (rounds x : ℕ)
    → x ≢ 0
    → x < 2 ^ rounds
    → (countr_zero_from rounds x < rounds) × (digit x (countr_zero_from rounds x) ≡ 1)
unfolding countr_zero_from
countr_zero_from-digit zero x ne lt = absurd (omega arith)
countr_zero_from-digit (suc rounds) x ne lt = elim (ℕ_discrete (x % 2) 1) [
  | yes odd ↦ rw odd (omega arith, digit-zero x ∙ odd)
  | no even ↦
      let half : x / 2 < 2 ^ rounds = omega (arith, pow-suc 2 rounds) in
      let more = countr_zero_from-digit rounds (x / 2) (λ e. ne (omega arith)) half in
      let test : (x % 2 == 1) ≡ false = ground arith in
      rw test (omega (arith, more), digit-suc x (countr_zero_from rounds (x / 2)) ∙ more.1)
]

-- and those below are not.
countr_zero_from-below : (rounds x j : ℕ) → j < countr_zero_from rounds x → digit x j ≡ 0
unfolding countr_zero_from
countr_zero_from-below zero x j lt = absurd (omega arith)
countr_zero_from-below (suc rounds) x zero lt = digit-zero x ∙ ground arith
countr_zero_from-below (suc rounds) x (suc j) lt =
    digit-suc x j ∙ countr_zero_from-below rounds (x / 2) j (ground arith)

pub digit-none : (j : ℕ) → digit 0 j ≡ 0
digit-none j = rw (zero-div (2 ^ j)) refl

pub countr_zero-digit :
    (x : ℕ)
    → x ≢ 0
    → x ≤ size_max
    → (countr_zero x < 64)
      × (digit x (countr_zero x) ≡ 1)
      × ((j : ℕ) → j < countr_zero x → digit x j ≡ 0)
unfolding countr_zero
countr_zero-digit x ne fits =
    let found = countr_zero_from-digit 64 x ne (omega arith) in
    (found.0, found.1, λ j lt. countr_zero_from-below 64 x j lt)

twice : (y b : ℕ) → y * 2 ^ suc b ≡ y * 2 ^ b * 2
twice y b = rw (pow-suc 2 b) (sym (mul_assoc y (2 ^ b) 2))

halved : (b x : ℕ) → x / 2 ^ suc b * 2 ^ suc b / 2 ≡ x / 2 / 2 ^ b * 2 ^ b
halved b x =
    let quotient : x / 2 ^ suc b ≡ x / 2 / 2 ^ b =
      rw (pow-succ' 2 b) (sym (div-div-eq-div-mul x 2 (2 ^ b))) in
    rw (quotient, twice (x / 2 / 2 ^ b) b) (omega arith)

-- Clearing the digits below `b` keeps the others.
pub cleared-digit : (b x j : ℕ) → digit (x / 2 ^ b * 2 ^ b) j ≡ (if ltb j b then 0 else digit x j)
cleared-digit zero x j = ground arith
cleared-digit (suc b) x zero =
    digit-zero (x / 2 ^ suc b * 2 ^ suc b) ∙ rw (twice (x / 2 ^ suc b) b) (ground arith)
cleared-digit (suc b) x (suc j) =
    let half : x / 2 ^ suc b * 2 ^ suc b / 2 ≡ x / 2 / 2 ^ b * 2 ^ b = halved b x in
    digit-suc (x / 2 ^ suc b * 2 ^ suc b) j
    ∙ ap (λ w. digit w j) half
    ∙ cleared-digit b (x / 2) j
    ∙ ground (arith, digit-suc x j)
