-- ===== src/Word/Pow2.antt =====
-- lib/types.hpp and its callers: powers of two, alignment tests and masks on `size_t`.
use native.Mathlib.Nat.{pow-suc, one-le-pow, pow-le-pow_right, mul_assoc, mul-one, suc-mul}
use native.Mathlib.Nat.{div-lt_iff_lt-mul, mod-mod_of_dvd, dvd-mul_left, zero-mod}
use native.Mathlib.Decide.{dec_le}
use native.Mathlib.Nat.{mod-lt, add-mod-mod, div-add-mod, mul-add, mul-mod_right}
use Prim.Native.Nat.{◌∣◌}
use allocazam.Prelude.{
  ℕ, zero, suc, ◌+◌, ◌-◌, ◌*◌, ◌/◌, ◌%◌, ◌^◌, ◌≤◌, ◌<◌, bit_and, ◌≡◌, refl, ap, sym, subst, ◌∙◌,
  ◌↔◌, Bool, true, false, Option, none, some, inl, inr, arith, leb, ◌==◌, ==_iff, if◌then◌else◌,
  Bool-cases,
}
use allocazam.Prelude.Bits.{bit_and_low, bit_and_high}
use allocazam.Word.{size_mod, size_max, wrap}

-- One set bit among the low `width` bits.
single_bit : ℕ → ℕ → Bool
single_bit zero x = false
single_bit (suc width) x = if x % 2 == 1 then x == 1 else single_bit width (x / 2)

-- `std::has_single_bit` at `size_t`
unfoldable pub has_single_bit : ℕ → Bool
unfolding single_bit
has_single_bit x = single_bit 64 x

-- `x & ~mask`
unfoldable pub and_not : ℕ → ℕ → ℕ
and_not x mask = bit_and x (size_max - mask)

-- `(p & (alignment - 1)) == 0`, where `alignment - 1` wraps.
unfoldable pub is_aligned : ℕ → ℕ → Bool
is_aligned p alignment = bit_and p (wrap (alignment + size_max)) == 0

-- `_align_up_pow2`, `_tls_align_up`: add the mask, then clear it.
unfoldable pub align_up_pow2 : ℕ → ℕ → ℕ
align_up_pow2 value alignment = and_not (wrap (value + (alignment - 1))) (alignment - 1)

-- `std::align`: the aligned pointer and the space left behind it, if `size` bytes still fit.
unfoldable pub std_align : (alignment size p space : ℕ) → Option (ℕ × ℕ)
std_align alignment size p space =
    let pad = (alignment - p % alignment) % alignment in
    if leb (pad + size) space then some (p + pad, space - pad) else none

abbrev pub IsPow2 : ℕ → Type 0
IsPow2 x = (k : ℕ) × (k < 64) × (x ≡ 2 ^ k)

pub pow-add : (a b : ℕ) → 2 ^ (a + b) ≡ 2 ^ a * 2 ^ b
pow-add a zero = ground (arith, mul-one (2 ^ a))
pow-add a (suc b) =
    ground (arith, pow-suc 2 b, pow-suc 2 (a + b), pow-add a b, mul_assoc (2 ^ a) (2 ^ b) 2)

single_bit_sound : (w x : ℕ) → single_bit w x ≡ true → (k : ℕ) × (k < w) × (x ≡ 2 ^ k)
unfolding single_bit
single_bit_sound zero x h = cc
single_bit_sound (suc w) x h = elim (Bool-cases (x % 2 == 1)) [
  | inl odd ↦ (0, omega arith, ground arith)
  | inr even ↦
      let (k, lt, e) = single_bit_sound w (x / 2) (rw (even, single_bit) at h) in
      (suc k, omega arith, ground (arith, pow-suc 2 k))
]

single_bit_complete : (w k : ℕ) → k < w → single_bit w (2 ^ k) ≡ true
unfolding single_bit
single_bit_complete zero k h = absurd (omega arith)
single_bit_complete (suc w) zero h = refl
single_bit_complete (suc w) (suc k) h =
    let even : (2 ^ suc k % 2 == 1) ≡ false = ground (arith, pow-suc 2 k) in
    let half : 2 ^ suc k / 2 ≡ 2 ^ k = omega (arith, pow-suc 2 k) in
    rw (even, half) (single_bit_complete w k (omega arith))

-- `std::has_single_bit` is true exactly at the powers of two.
pub has_single_bit_iff : (x : ℕ) → (has_single_bit x ≡ true) ↔ IsPow2 x
unfolding has_single_bit
has_single_bit_iff x = (single_bit_sound 64 x, λ (k, lt, e). rw e (single_bit_complete 64 k lt))

pub pow2_pos : (k : ℕ) → 0 < 2 ^ k
pow2_pos k = one-le-pow k 2 (omega arith)

sub_one_mul : (t p : ℕ) → 0 < t → (t - 1) * p + p ≡ t * p
sub_one_mul zero p h = elim h [ ]
sub_one_mul (suc t) p h = let e : suc t - 1 ≡ t = omega arith in rw (e, suc-mul t p)

pub pow2_whole : (k : ℕ) → k ≤ 64 → 2 ^ (64 - k) * 2 ^ k ≡ size_mod
pow2_whole k h =
    let e : 64 - k + k ≡ 64 = omega arith in sym (pow-add (64 - k) k) ∙ ap (λ n. 2 ^ n) e

pow2_split : (k : ℕ) → k ≤ 64 → size_max - (2 ^ k - 1) ≡ (2 ^ (64 - k) - 1) * 2 ^ k
pow2_split k h =
    omega
      (arith, pow2_whole k h, pow2_pos k, sub_one_mul (2 ^ (64 - k)) (2 ^ k) (pow2_pos (64 - k)))

pub and_not-pow2 : (k x : ℕ) → k ≤ 64 → x ≤ size_max → and_not x (2 ^ k - 1) ≡ x / 2 ^ k * 2 ^ k
unfolding and_not
and_not-pow2 k x h hx =
    rw (pow2_split k h) (
      bit_and_high k (64 - k) x
        ((div-lt_iff_lt-mul (pow2_pos k)).1 (omega (arith, pow2_whole k h))))

pub pow2-lt : (k : ℕ) → k < 64 → 2 ^ k ≤ 2 ^ 63
pow2-lt k h = pow-le-pow_right (omega arith) {j = 63} (omega arith)

pub pow2-le : {x : ℕ} → IsPow2 x → x ≤ 2 ^ 63
pow2-le (k, lt, e) = rw e (pow2-lt k lt)

mask_of_pow2 : (k : ℕ) → k < 64 → wrap (2 ^ k + size_max) ≡ 2 ^ k - 1
mask_of_pow2 k h = omega (arith, pow2-lt k h, pow2_pos k)

-- The mask test is divisibility.
pub is_aligned_iff : (p k : ℕ) → k < 64 → (is_aligned p (2 ^ k) ≡ true) ↔ (p % 2 ^ k ≡ 0)
unfolding is_aligned
is_aligned_iff p k h = rw (mask_of_pow2 k h, bit_and_low k p) (==_iff _ 0)

-- A smaller power of two divides a larger one, so alignment is inherited.
pub aligned_mono : (p j k : ℕ) → 2 ^ j ≤ 2 ^ k → p % 2 ^ k ≡ 0 → p % 2 ^ j ≡ 0
aligned_mono p j k le e = elim (dec_le j k) [
  | yes h ↦ descend h
  | no h ↦
      let same : 2 ^ j ≡ 2 ^ k =
        omega (arith, le, pow-le-pow_right {n = 2} (omega arith) {i = k} {j = j} (omega arith)) in
      rw same e
]
  where
    descend : j ≤ k → p % 2 ^ j ≡ 0
    descend h =
        let whole : 2 ^ k ≡ 2 ^ (k - j) * 2 ^ j =
          let e : k ≡ k - j + j = omega arith in ap (λ n. 2 ^ n) e ∙ pow-add (k - j) j in
        let divides : 2 ^ j ∣ 2 ^ k =
          subst (◌∣◌ (2 ^ j)) (sym whole) (dvd-mul_left (2 ^ j) (2 ^ (k - j))) in
        sym (mod-mod_of_dvd (2 ^ j) {b = 2 ^ k} p divides) ∙ (rw e (zero-mod (2 ^ j)))

module _ (p a : ℕ) (pow : has_single_bit a ≡ true) where
  pub is_aligned_of_mod : p % a ≡ 0 → is_aligned p a ≡ true
  is_aligned_of_mod e =
      let (k, lt, ek) = (has_single_bit_iff a).0 pow in
      rw ek ((is_aligned_iff p k lt).1 (rw ek at e))

  pub mod_of_is_aligned : is_aligned p a ≡ true → p % a ≡ 0
  mod_of_is_aligned e =
      let (k, lt, ek) = (has_single_bit_iff a).0 pow in
      rw ek ((is_aligned_iff p k lt).0 (rw ek at e))

  pub single_bit_pos : 0 < a
  single_bit_pos = let (k, lt, ek) = (has_single_bit_iff a).0 pow in omega (arith, pow2_pos k)

-- The padding that `std::align` puts in front.
pub pad_of : ℕ → ℕ → ℕ
pad_of alignment p = (alignment - p % alignment) % alignment

pub pad_of-lt : (a p : ℕ) → 0 < a → pad_of a p < a
unfolding pad_of
pad_of-lt a p pos = mod-lt _ pos

pub pad_of-mod : (a p : ℕ) → 0 < a → (p + pad_of a p) % a ≡ 0
unfolding pad_of
pad_of-mod a p pos =
    add-mod-mod p (a - p % a) a
    ∙ (let e : p + (a - p % a) ≡ a * (p / a + 1) =
          omega (arith, div-add-mod p a, mod-lt p pos, mul-add a (p / a) 1, mul-one a) in
        rw e (mul-mod_right a (p / a + 1)))

-- `std::align` succeeds exactly if the padding and the size fit.
pub std_align-eq :
    (a size p space : ℕ)
    → std_align a size p space
      ≡ (if leb (pad_of a p + size) space then some (p + pad_of a p, space - pad_of a p) else none)
unfolding std_align pad_of
std_align-eq a size p space = refl

-- The mask `granule - 1` clears the part of an address inside its granule.
pub and_not_granule :
    (granule x : ℕ)
    → IsPow2 granule
    → x ≤ size_max
    → and_not x (granule - 1) ≡ x / granule * granule
and_not_granule granule x (k, lt, e) small = rw e (and_not-pow2 k x (omega arith) small)
