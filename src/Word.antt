-- ===== src/Word.antt =====
-- lib/types.hpp: `size_t` arithmetic and its overflow checks.
pub mod Checked
pub mod Pow2
mod Tests
use allocazam.Prelude.{
  ℕ, ◌+◌, ◌-◌, ◌*◌, ◌/◌, ◌%◌, ◌^◌, Option, none, some, Bool, ◌||◌, ltb, ◌==◌, if◌then◌else◌,
}

abbrev pub size_mod : ℕ
size_mod = 2 ^ 64

-- `std::numeric_limits<size_t>::max()`
abbrev pub size_max : ℕ
size_max = 2 ^ 64 - 1

-- A `size_t` product or sum, wrapped.
abbrev pub wrap : ℕ → ℕ
wrap n = n % size_mod

unfoldable pub round_to_multiple_of : ℕ → ℕ → ℕ
round_to_multiple_of value multiple =
    if value % multiple == 0 then value else wrap (value + (multiple - value % multiple))

-- The out parameter is the value of the `some`; `false` is `none`.
unfoldable pub checked_add : ℕ → ℕ → Option ℕ
checked_add lhs rhs = if ltb (size_max - rhs) lhs then none else some (wrap (lhs + rhs))

unfoldable pub checked_mul : ℕ → ℕ → Option ℕ
checked_mul lhs rhs =
    if lhs == 0 || rhs == 0
    then some 0
    else if ltb (size_max / rhs) lhs
    then none
    else some (wrap (lhs * rhs))

unfoldable pub checked_round_to_multiple_of : ℕ → ℕ → Option ℕ
checked_round_to_multiple_of value multiple =
    if multiple == 0
    then none
    else if value % multiple == 0
    then some value
    else checked_add value (multiple - value % multiple)
