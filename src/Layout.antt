-- ===== src/Layout.antt =====
-- `sizeof(T)` and `alignof(T)` of the value type that the templates are instantiated at.
use allocazam.Prelude.{ℕ, ◌%◌, ◌^◌, ◌<◌, ◌≤◌, ◌≡◌, true, arith}
use native.Mathlib.Nat.{mod-eq_of_lt}
use native.Mathlib.Decide.{dec_le}
use allocazam.Word.Pow2.{has_single_bit}

pub record Layout : Type 0 where
  pub size : ℕ
  pub align : ℕ

-- What C++ promises of every object type.
pub record IsLayout (T : Layout) : Type 0 where
  pub size_pos : 0 < T.size
  -- no object is larger than the largest `ptrdiff_t`
  pub size_fits : T.size < 2 ^ 63
  pub align_pow2 : has_single_bit T.align ≡ true
  pub size_multiple : T.size % T.align ≡ 0

pub align-le-size : (T : Layout) → IsLayout T → T.align ≤ T.size
align-le-size T lay = elim (dec_le T.align T.size) [
  | yes h ↦ h
  | no h ↦
      let same : T.size % T.align ≡ T.size = mod-eq_of_lt (omega arith) in
      absurd (omega (arith, same, lay.size_multiple, lay.size_pos))
]
