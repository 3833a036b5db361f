-- ===== src/Word/Checked.antt =====
-- The overflow checks of lib/types.hpp against the unbounded operations.
use native.Mathlib.Nat.{
  le-div_iff_mul-le, div-add-mod, mod-lt, mul-le-mul_left, mul-add, mul-one, mul-mod_right,
}
use native.Mathlib.Decide.{dec_le}
use allocazam.Prelude.{
  ℕ, zero, suc, ◌+◌, ◌-◌, ◌*◌, ◌/◌, ◌%◌, ◌≤◌, ◌<◌, ◌≡◌, ◌≢◌, none, some, inl, inr, arith, leb, ◌==◌,
  if◌then◌else◌, Bool-cases, false, ==_iff,
}
use allocazam.Word.{size_max, checked_add, checked_mul, checked_round_to_multiple_of}

-- On `size_t` operands `checked_add` gives the exact sum if it fits, and fails otherwise.
pub checked_add-eq :
    (a b : ℕ)
    → a ≤ size_max
    → b ≤ size_max
    → checked_add a b ≡ (if leb (a + b) size_max then some (a + b) else none)
unfolding checked_add
checked_add-eq a b ha hb = ground arith

-- On `size_t` operands `checked_mul` gives the exact product if it fits, and fails otherwise.
pub checked_mul-eq :
    (a b : ℕ)
    → a ≤ size_max
    → b ≤ size_max
    → checked_mul a b ≡ (if leb (a * b) size_max then some (a * b) else none)
unfolding checked_mul
checked_mul-eq zero b ha hb = ground arith
checked_mul-eq (suc a) zero ha hb = ground arith
checked_mul-eq (suc a) (suc b) ha hb =
    ground (arith, le-div_iff_mul-le {k = suc b} {x = suc a} {y = size_max} (omega arith))

pub next_multiple-mod : (v m : ℕ) → 0 < m → (v + (m - v % m)) % m ≡ 0
next_multiple-mod v m pos =
    let e : v + (m - v % m) ≡ m * (v / m + 1) =
      omega (arith, div-add-mod v m, mod-lt v pos, mul-add m (v / m) 1, mul-one m) in
    rw e (mul-mod_right m (v / m + 1))

-- The next multiple behind a number that is none itself.
next_multiple-le : (v m s : ℕ) → 0 < m → v % m ≢ 0 → s % m ≡ 0 → v ≤ s → v + (m - v % m) ≤ s
next_multiple-le v m s pos ne ms le = elim (dec_le (v / m + 1) (s / m)) [
  | yes h ↦ omega (
    arith,
    div-add-mod v m,
    div-add-mod s m,
    mod-lt v pos,
    mul-add m (v / m) 1,
    mul-one m,
    mul-le-mul_left m h,
  )
  | no h ↦
      let le' : s / m ≤ v / m = omega arith in
      absurd (omega (arith, div-add-mod v m, div-add-mod s m, mul-le-mul_left m le'))
]

abbrev pub IsLeastMultiple : ℕ → ℕ → ℕ → Type 0
IsLeastMultiple m v r = (r % m ≡ 0) × (v ≤ r) × ((s : ℕ) → s % m ≡ 0 → v ≤ s → r ≤ s)

-- On `size_t` operands with `0 < m`, `checked_round_to_multiple_of` gives the least multiple of
-- `m` that is at least `v`, and fails exactly when that does not fit.
pub checked_round-least :
    (v m : ℕ)
    → v ≤ size_max
    → m ≤ size_max
    → 0 < m
    → (r : ℕ) × IsLeastMultiple m v r
      × (checked_round_to_multiple_of v m ≡ (if leb r size_max then some r else none))
unfolding checked_round_to_multiple_of
checked_round-least v m hv hm pos = elim (Bool-cases (v % m == 0)) [
  | inl e ↦ (v, ((==_iff _ 0).0 e, omega arith, λ s _ h. h), rw e (ground arith))
  | inr e ↦
      let ne : v % m ≢ 0 = ground arith in
      let nz : (m == 0) ≡ false = ground arith in
      (
        v + (m - v % m),
        (next_multiple-mod v m pos, omega arith, λ s ms le. next_multiple-le v m s pos ne ms le),
        rw (e, nz) (checked_add-eq v (m - v % m) hv (omega arith)),
      )
]

-- A rounded value is not below the value.
pub checked_round-le :
    (v m r : ℕ)
    → v ≤ size_max
    → m ≤ size_max
    → 0 < m
    → checked_round_to_multiple_of v m ≡ some r
    → v ≤ r
checked_round-le v m r hv hm pos e =
    let (s, (_, le, _), eq) = checked_round-least v m hv hm pos in ground arith

-- A sum or product that passes the check is exact, and a word.
pub checked_add_exact :
    (a b : ℕ) {r : ℕ}
    → a ≤ size_max
    → b ≤ size_max
    → checked_add a b ≡ some r
    → (r ≡ a + b) × (r ≤ size_max)
checked_add_exact a b ha hb e = ground (arith, checked_add-eq a b ha hb)

pub checked_mul_exact :
    (a b : ℕ) {r : ℕ}
    → a ≤ size_max
    → b ≤ size_max
    → checked_mul a b ≡ some r
    → (r ≡ a * b) × (r ≤ size_max)
checked_mul_exact a b ha hb e = ground (arith, checked_mul-eq a b ha hb)
