-- ===== src/Runner/Sizes/Word.antt =====
-- The word that holds a run's size and its two flags.
use allocazam.Prelude.{
  ℕ, ◌+◌, ◌-◌, ◌*◌, ◌/◌, ◌%◌, ◌^◌, ◌≤◌, ◌≡◌, bit_and, bit_or, Bool, true, false, refl, ◌∙◌, arith,
  if◌then◌else◌,
}
use allocazam.Prelude.Bits.{bit_or_step, bit_and_step, bit_or-zero, bit_and_low}
use allocazam.Word.{size_max}
use allocazam.Word.Pow2.{and_not, and_not-pow2}
use allocazam.Runner.Sizes.{pack, size_field, flag, set_prev_free, flag_is_free, flag_prev_is_free}

-- What a packed word is, as a number.
abbrev pub packed : ℕ → Bool → Bool → ℕ
packed bytes is_free prev_is_free =
    bytes + (if is_free then 1 else 0) + (if prev_is_free then 2 else 0)

or_one : (x : ℕ) → x % 2 ≡ 0 → bit_or x 1 ≡ x + 1
or_one x even = rw (bit_or_step x 1) (omega (arith, bit_or-zero (x / 2)))

or_two : (x : ℕ) → x / 2 % 2 ≡ 0 → bit_or x 2 ≡ x + 2
or_two x even = rw (bit_or_step x 2) (omega (arith, or_one (x / 2) even))

pack-eq :
    (bytes : ℕ) (is_free prev_is_free : Bool)
    → bytes % 4 ≡ 0
    → pack bytes is_free prev_is_free ≡ packed bytes is_free prev_is_free
unfolding pack
pack-eq bytes true true whole =
    rw (or_one bytes (omega arith)) (or_two (bytes + 1) (omega arith) ∙ omega arith)
pack-eq bytes true false whole =
    rw (or_one bytes (omega arith)) (bit_or-zero (bytes + 1) ∙ omega arith)
pack-eq bytes false true whole = rw (bit_or-zero bytes) (or_two bytes (omega arith) ∙ omega arith)
pack-eq bytes false false whole = rw (bit_or-zero bytes) (bit_or-zero bytes ∙ omega arith)

size_field-eq : (w : ℕ) → w ≤ size_max → size_field w ≡ w / 4 * 4
unfolding size_field
size_field-eq w fits = and_not-pow2 2 w (omega arith) fits

low_flag : (w : ℕ) → bit_and w 1 ≡ w % 2
low_flag w = bit_and_low 1 w

high_flag : (w : ℕ) → bit_and w 2 ≡ w / 2 % 2 * 2
high_flag w = rw (bit_and_step w 2) (omega (arith, low_flag (w / 2)))

-- Clearing the second flag keeps the first one.
without_high_flag : (w : ℕ) → w ≤ size_max → and_not w 2 ≡ w / 4 * 4 + w % 2
unfolding and_not
without_high_flag w fits =
    rw
      (bit_and_step w (size_max - 2), bit_and_step (w / 2) (2 ^ 63 - 2), bit_and_low 62 (w / 2 / 2))
      (omega arith)

module _ (bytes : ℕ) (is_free : Bool) (whole : bytes % 4 ≡ 0) (fits : bytes + 3 ≤ size_max) where
  free_flag-packed : (prev_is_free : Bool) → flag (packed bytes is_free prev_is_free) 1 ≡ is_free
  unfolding flag
  free_flag-packed prev_is_free = rw (low_flag (packed bytes is_free prev_is_free)) (ground arith)

  prev_flag-packed :
      (prev_is_free : Bool) → flag (packed bytes is_free prev_is_free) 2 ≡ prev_is_free
  unfolding flag
  prev_flag-packed prev_is_free = rw (high_flag (packed bytes is_free prev_is_free)) (ground arith)

  set_prev_free-packed :
      (prev_is_free other : Bool)
      → set_prev_free (packed bytes is_free prev_is_free) other ≡ packed bytes is_free other
  unfolding set_prev_free
  set_prev_free-packed true true = rw (prev_flag-packed true) refl
  set_prev_free-packed false true =
      rw (prev_flag-packed false)
        (or_two (packed bytes is_free false) (ground arith) ∙ ground arith)
  set_prev_free-packed true false =
      rw (prev_flag-packed true)
        (without_high_flag (packed bytes is_free true) (ground arith) ∙ ground arith)
  set_prev_free-packed false false = rw (prev_flag-packed false) refl

-- A word that is packed from a size of whole words gives the size and both flags back, and changing
-- its second flag gives the word packed from the changed flag.
pub fields-pack :
    (bytes : ℕ) (is_free prev_is_free other : Bool)
    → bytes % 4 ≡ 0
    → bytes + 3 ≤ size_max
    → (size_field (pack bytes is_free prev_is_free) ≡ bytes)
      × (flag (pack bytes is_free prev_is_free) flag_is_free ≡ is_free)
      × (flag (pack bytes is_free prev_is_free) flag_prev_is_free ≡ prev_is_free)
      × (set_prev_free (pack bytes is_free prev_is_free) other ≡ pack bytes is_free other)
fields-pack bytes is_free prev_is_free other whole fits =
    rw (pack-eq bytes is_free prev_is_free whole, pack-eq bytes is_free other whole)
      (
        size_field-eq (packed bytes is_free prev_is_free) (ground arith) ∙ ground arith,
        free_flag-packed bytes is_free whole fits prev_is_free,
        prev_flag-packed bytes is_free whole fits prev_is_free,
        set_prev_free-packed bytes is_free whole fits prev_is_free other,
      )
