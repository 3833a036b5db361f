-- ===== src/Prelude/Bits.antt =====
-- Bit masks of `2 ^ k` as arithmetic, at every width.
use Prim.Native.Nat.{min, max, digits, bitwise, bit_and-bitwise, bit_or-bitwise}
use Prim.Native.Nat.{ℕ, zero, suc, ◌+◌, ◌-◌, ◌*◌, ◌/◌, ◌%◌, ◌^◌, ◌≤◌, ◌<◌, bit_and, bit_or}
use Prim.Native.Nat.add
use mathlib.Core.Path.{◌≡◌, refl, ap, sym, ◌∙◌}
use native.Mathlib.Nat.{
  pow-suc, pow-succ', mul_left_comm, mod-lt, one-le-pow, le_refl, mul-one, add-zero, mod-eq_of_lt,
  div-add-mod',
}
use native.Mathlib.Omega.{arith}

-- One more round of the digit recursion changes nothing once the rounds cover the number.
module _ (rest : ℕ → ℕ) (digit : ℕ → ℕ → ℕ) where
  one_more_round :
      (rounds x y : ℕ)
      → x ≤ rounds
      → digits rest digit (suc rounds) x y ≡ digits rest digit rounds x y
  one_more_round rounds zero y covered =
      elim rounds as (λ k. digits rest digit (suc k) 0 y ≡ digits rest digit k 0 y) [
        | zero ↦ refl
        | suc k ↦ refl
      ]
  one_more_round zero (suc x) y covered = elim covered [ ]
  one_more_round (suc rounds) (suc x) y covered =
      let next = one_more_round rounds (suc x / 2) (y / 2) (omega arith) in
      ap (λ high. high * 2 + digit (suc x % 2) (y % 2)) next

  more_rounds :
      (extra rounds x y : ℕ)
      → x ≤ rounds
      → digits rest digit (extra + rounds) x y ≡ digits rest digit rounds x y
  more_rounds zero rounds x y covered = rw add.zero
  more_rounds (suc extra) rounds x y covered =
      rw add.suc
        (one_more_round (extra + rounds) x y (omega arith) ∙ more_rounds extra rounds x y covered)

  lowest_digit :
      (x y : ℕ)
      → bitwise rest digit (suc x) y
        ≡ bitwise rest digit (suc x / 2) (y / 2) * 2 + digit (suc x % 2) (y % 2)
  lowest_digit x y =
      let half = suc x / 2 in
      let enough : x - half + half ≡ x = omega arith in
      let same = more_rounds (x - half) half half (y / 2) (le_refl half) in
      ap (λ high. high * 2 + digit (suc x % 2) (y % 2)) (rw enough at same)

pub bit_or_step : (x y : ℕ) → bit_or x y ≡ bit_or (x / 2) (y / 2) * 2 + max (x % 2) (y % 2)
bit_or_step zero y = simp bit_or-bitwise (omega arith)
bit_or_step (suc x) y = simp bit_or-bitwise (lowest_digit (λ v. v) max x y)

pub bit_and_step : (x y : ℕ) → bit_and x y ≡ bit_and (x / 2) (y / 2) * 2 + min (x % 2) (y % 2)
bit_and_step zero y = simp bit_and-bitwise (omega arith)
bit_and_step (suc x) y = simp bit_and-bitwise (lowest_digit (λ v. 0) min x y)

-- Both laws with zero, below any bound.
with_zero : (bound x : ℕ) → x ≤ bound → (bit_and x 0 ≡ 0) × (bit_or x 0 ≡ x)
with_zero bound zero small = (refl, refl)
with_zero zero (suc x) small = elim small [ ]
with_zero (suc bound) (suc x) small =
    let (both, either) = with_zero bound (suc x / 2) (omega arith) in
    (omega (arith, bit_and_step (suc x) 0, both), omega (arith, bit_or_step (suc x) 0, either))

bit_and-zero : (x : ℕ) → bit_and x 0 ≡ 0
bit_and-zero x = (with_zero x x (le_refl x)).0

pub bit_or-zero : (x : ℕ) → bit_or x 0 ≡ x
bit_or-zero x = (with_zero x x (le_refl x)).1

-- Doubling the modulus, under a factor.
times_double : (c k : ℕ) → c * 2 ^ suc k ≡ 2 * (c * 2 ^ k)
times_double c k = rw (pow-succ' 2 k) (mul_left_comm c 2 (2 ^ k))

-- A mask of ones above `k` zeros reads the digits above, whatever stands below.
masked_above :
    (k high low mask : ℕ)
    → low < 2 ^ k
    → bit_and (high * 2 ^ k + low) (mask * 2 ^ k) ≡ bit_and high mask * 2 ^ k
masked_above zero high low mask fits =
    let none_below : low ≡ 0 = omega arith in
    rw (none_below, mul-one high, mul-one mask, add-zero high) (sym (mul-one (bit_and high mask)))
masked_above (suc k) high low mask fits = ground (
  arith,
  times_double high k,
  times_double mask k,
  times_double (bit_and high mask) k,
  pow-suc 2 k,
  masked_above k high (low / 2) mask (omega arith),
  bit_and_step (high * 2 ^ suc k + low) (mask * 2 ^ suc k),
)

-- A mask of `k` ones reads the digits below.
masked_below : (k high low : ℕ) → low < 2 ^ k → bit_and (high * 2 ^ k + low) (2 ^ k - 1) ≡ low
masked_below zero high low fits = bit_and-zero (high * 1 + low) ∙ omega arith
masked_below (suc k) high low fits = ground (
  arith,
  times_double high k,
  pow-suc 2 k,
  masked_below k high (low / 2) (omega arith),
  bit_and_step (high * 2 ^ suc k + low) (2 ^ suc k - 1),
)

-- A mask of `k` low bits keeps the remainder by `2 ^ k`.
pub bit_and_low : (k x : ℕ) → bit_and x (2 ^ k - 1) ≡ x % 2 ^ k
bit_and_low k x =
    let below = masked_below k (x / 2 ^ k) (x % 2 ^ k) (mod-lt x (one-le-pow k 2 (omega arith))) in
    rw (div-add-mod' x (2 ^ k)) at below

-- A mask of `m` ones above `k` zeros clears the low `k` bits of a word of `k + m` bits.
pub bit_and_high :
    (k m x : ℕ) → x / 2 ^ k < 2 ^ m → bit_and x ((2 ^ m - 1) * 2 ^ k) ≡ x / 2 ^ k * 2 ^ k
bit_and_high k m x fits =
    let above =
      masked_above k (x / 2 ^ k) (x % 2 ^ k) (2 ^ m - 1)
        (mod-lt x (one-le-pow k 2 (omega arith))) in
    rw (div-add-mod' x (2 ^ k), bit_and_low m (x / 2 ^ k), mod-eq_of_lt fits) at above
