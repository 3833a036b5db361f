-- ===== src/Chunk/Spacing.antt =====
-- The slots of a chunk with headers lie a node apart.
use native.Mathlib.Nat.{div-add-mod', mod-lt, mul-le-mul_right, suc-mul}
use native.Mathlib.Decide.{ℕ_discrete, dec_lt}
use allocazam.Prelude.{ℕ, suc, ◌+◌, ◌*◌, ◌/◌, ◌%◌, ◌≤◌, ◌<◌, ◌≡◌, ap, true, arith}
use allocazam.Layout.{Layout}
use allocazam.Chunk.{sizeof_node, nodes_per_granule, Chunk, at}
use allocazam.Chunk.Owner.{IsHeadered, at_bounds}

module _ (T : Layout) (c : Chunk) (is : IsHeadered T c) where
  abbrev per : ℕ
  per = nodes_per_granule T c.alloc_align

  granule_mono : (i j : ℕ) → i < j → i / per ≤ j / per
  granule_mono i j lt = elim (dec_lt (j / per) (i / per)) [
    | no fine ↦ omega arith
    | yes back ↦
        let over = mul-le-mul_right {m = suc (j / per)} {n = i / per} per back in
        absurd (
          omega (
            arith,
            over,
            suc-mul (j / per) per,
            div-add-mod' i per,
            div-add-mod' j per,
            mod-lt j is.per_pos,
          ))
  ]

  in_granule :
      (i j : ℕ)
      → i / per ≡ j / per
      → suc (i % per) * sizeof_node T ≤ j % per * sizeof_node T
      → at true T c i + sizeof_node T ≤ at true T c j
  unfolding at
  in_granule i j same over =
      omega (arith, over, suc-mul (i % per) (sizeof_node T), ap (λ q. q * c.alloc_align) same)

  -- A later slot stands behind the whole of an earlier one.
  pub at_apart : (i j : ℕ) → i < j → j < c.count → at true T c i + sizeof_node T ≤ at true T c j
  at_apart i j lt top = elim (ℕ_discrete (i / per) (j / per)) [
    | yes same ↦
        let places : i % per < j % per =
          omega (arith, div-add-mod' i per, div-add-mod' j per, ap (λ q. q * per) same) in
        let over = mul-le-mul_right {m = suc (i % per)} {n = j % per} (sizeof_node T) places in
        in_granule i j same over
    | no other ↦
        let earlier : i / per < j / per = omega (arith, granule_mono i j lt) in
        let over = mul-le-mul_right {m = suc (i / per)} {n = j / per} c.alloc_align earlier in
        omega (
          arith,
          over,
          suc-mul (i / per) c.alloc_align,
          at_bounds T c is i (omega arith),
          at_bounds T c is j top,
        )
  ]
