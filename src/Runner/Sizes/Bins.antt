-- ===== src/Runner/Sizes/Bins.antt =====
-- The bins are in the order of the sizes.
use native.Mathlib.Decide.{dec_le}
use allocazam.Prelude.{
  ℕ, zero, suc, ◌+◌, ◌-◌, ◌*◌, ◌/◌, ◌%◌, ◌≤◌, ◌<◌, ◌≡◌, min, bit_or, refl, arith, if◌then◌else◌,
  leb, ◌⊎◌, inl, inr,
}
use allocazam.Prelude.Bits.{bit_or_step, bit_or-zero}
use allocazam.Word.{size_max, wrap}
use allocazam.Word.Pow2.{and_not-pow2, align_up_pow2}
use allocazam.Runner.Sizes.{bin_index_for, bit_width, bit_width_from, bin_count, linear_bin_count}

bit_width_from_mono : (rounds x y : ℕ) → x ≤ y → bit_width_from rounds x ≤ bit_width_from rounds y
unfolding bit_width_from
bit_width_from_mono zero x y le = omega arith
bit_width_from_mono (suc rounds) x y le =
    let rest = bit_width_from_mono rounds (x / 2) (y / 2) (omega arith) in ground (arith, rest)

bit_width_mono : (x y : ℕ) → x ≤ y → bit_width x ≤ bit_width y
unfolding bit_width
bit_width_mono x y le = bit_width_from_mono 64 x y le

-- The size that picks the bin, as a number.
or_one-eq : (x : ℕ) → bit_or x 1 ≡ x / 2 * 2 + 1
or_one-eq x = rw (bit_or_step x 1) (omega (arith, bit_or-zero (x / 2)))

abbrev aligned : ℕ → ℕ
aligned x = (x / 2 * 2 + 8) / 8 * 8

aligned-eq : (x : ℕ) → x + 8 ≤ size_max → align_up_pow2 (bit_or x 1) 8 ≡ aligned x
unfolding align_up_pow2
aligned-eq x fits = rw (or_one-eq x) (
    let exact : wrap (x / 2 * 2 + 1 + 7) ≡ x / 2 * 2 + 8 = omega arith in
    rw exact (and_not-pow2 3 (x / 2 * 2 + 8) (omega arith) (omega arith)))

bin_of : ℕ → ℕ
bin_of x =
    if leb (aligned x) 4096
    then aligned x / 8 - 1
    else min (512 + (bit_width (aligned x - 1) - bit_width 4096)) 535

bin_index_for-eq : (x : ℕ) → x + 8 ≤ size_max → bin_index_for x ≡ bin_of x
unfolding bin_index_for bin_of
bin_index_for-eq x fits = rw (aligned-eq x fits) refl

bin_of_mono : (x y : ℕ) → x ≤ y → bin_of x ≤ bin_of y
unfolding bin_of
bin_of_mono x y le =
    let wider = bit_width_mono (aligned x - 1) (aligned y - 1) (omega arith) in
    ground (arith, wider)

bin_of-lt : (x : ℕ) → bin_of x < 536
unfolding bin_of
bin_of-lt x = ground arith

linear_bin : (x y : ℕ) → x % 8 ≡ 0 → y % 8 ≡ 0 → bin_of x < 512 → bin_of x ≡ bin_of y → x ≡ y
unfolding bin_of
linear_bin x y whole whole' small same = ground arith

-- Where rounding does not wrap, a size picks an index of a bin, and no larger size an earlier one.
pub bin_index_for_mono :
    (needed size : ℕ)
    → needed ≤ size
    → size + 8 ≤ size_max
    → (bin_index_for needed ≤ bin_index_for size) × (bin_index_for size < bin_count)
bin_index_for_mono needed size le fits =
    rw (bin_index_for-eq needed (omega arith), bin_index_for-eq size fits)
      (bin_of_mono needed size le, bin_of-lt size)

-- Of two run sizes, multiples of eight at which rounding does not wrap, one in a later bin than the
-- other, or in the same linear bin, is at least as large, so the first run of such a bin fits unseen.
pub bin_index_for-fits :
    (needed size : ℕ)
    → needed % 8 ≡ 0
    → size % 8 ≡ 0
    → needed + 8 ≤ size_max
    → size + 8 ≤ size_max
    → (bin_index_for needed < bin_index_for size)
      ⊎ ((bin_index_for needed ≡ bin_index_for size) × (bin_index_for needed < linear_bin_count))
    → needed ≤ size
bin_index_for-fits needed size whole whole' fits fits' h =
    elim (rw (bin_index_for-eq needed fits, bin_index_for-eq size fits') at h) [
      | inl later ↦ elim (dec_le size needed) [
        | yes le ↦ absurd (omega (arith, bin_of_mono size needed le))
        | no more ↦ omega arith
      ]
      | inr (same, small) ↦ omega (arith, linear_bin needed size whole whole' small same)
    ]
