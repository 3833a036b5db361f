-- ===== src/Suballocated/Calls/Counts.antt =====
-- The count that `allocate_at_least` asks for.
use native.Mathlib.Nat.{div-le_self}
use allocazam.Prelude.{
  ℕ, ◌+◌, ◌/◌, ◌%◌, ◌^◌, ◌-◌, ◌≤◌, ◌<◌, ◌≡◌, refl, true, false, min, arith, ltb, ◌==◌,
  if◌then◌else◌, inl, inr, Bool-cases,
}
use allocazam.Word.{size_mod, size_max}
use allocazam.Layout.{Layout}
use allocazam.Suballocated.{Setup, Allocator, Process, is_dynamic, max_size, bind_result, return}
use allocazam.Suballocated.Calls.{count_at_least, allocate, allocate_at_least}

max_size-le : (T : Layout) → max_size T ≤ size_max
unfolding max_size
max_size-le T = div-le_self size_max T.size

-- For a count that the allocator admits, `allocate_at_least` asks for no fewer values, and for no
-- more than the allocator admits: for half as many again in the dynamic mode, as far as that goes,
-- and for the same number in the others.
pub count-bounds :
    (s : Setup) (n : ℕ)
    → n ≤ max_size s.layout
    → let count = count_at_least s n in
      (n ≤ count)
      × (count ≤ max_size s.layout)
      × (count ≡ (if is_dynamic s.mode then min (n + n / 2) (max_size s.layout) else n))
unfolding count_at_least
count-bounds s n fits =
    let top = max_size-le s.layout in
    elim (Bool-cases (is_dynamic s.mode)) [
      | inl grows ↦ rw grows (ground arith, ground arith, ground arith)
      | inr fixed ↦ rw fixed (omega arith, fits, refl)
    ]

-- In the dynamic mode with values of at least three bytes, a count so far above what the allocator
-- admits that half as many again is no `size_t` makes `allocate_at_least` ask for the remainder: the
-- call does not throw, but allocates the smaller number of values if that is one that it admits.
pub allocate_at_least-wraps :
    (s : Setup) (t : ℕ) (a : Allocator) (n : ℕ) (w : Process)
    → is_dynamic s.mode ≡ true
    → n ≤ size_max
    → max_size s.layout < n / 2
    → size_mod ≤ n + n / 2
    → n + n / 2 ≤ size_mod + max_size s.layout
    → let count = n + n / 2 - size_mod in
      (count ≤ max_size s.layout)
      × (count < n)
      × (allocate_at_least s t a n w
          ≡ bind_result (allocate s t a count w) (λ p. return (p, count)))
unfolding count_at_least allocate_at_least
allocate_at_least-wraps s t a n w grows small over wraps least =
    let size : (max_size s.layout + (size_mod - n / 2)) % 2 ^ 64
        ≡ max_size s.layout + (size_mod - n / 2) =
      omega arith in
    let count : (n + n / 2) % 2 ^ 64 ≡ n + n / 2 - size_mod = omega arith in
    let several : ltb 1 n ≡ true = ground arith in
    let some_asked : (n == 0) ≡ false = ground arith in
    let unseen : ltb (max_size s.layout + (size_mod - n / 2)) n ≡ false = ground arith in
    (omega arith, omega arith, rw (some_asked, grows, several, size, unseen, count) refl)
