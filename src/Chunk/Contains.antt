-- ===== src/Chunk/Contains.antt =====
-- `contains` is true at the addresses of the slots and nowhere else.
use native.Mathlib.Nat.{
  div-add-mod', mod-lt, suc-mul, mul-le-mul_right, mul-add-div_right, mul-add-mod_self_right,
  div-eq_of_lt, mod-eq_of_lt, add-zero, add-sub_cancel_left, mul-div_cancel, mul-mod_left,
}
use allocazam.Prelude.{
  ℕ, ◌+◌, ◌-◌, ◌*◌, ◌/◌, ◌%◌, ◌≤◌, ◌<◌, ◌≡◌, sym, ◌∙◌, ap, suc, ◌↔◌, true, arith,
}
use allocazam.Layout.{Layout}
use allocazam.Chunk.{
  sizeof_node, header_offset, nodes_per_granule, granule_count, Chunk, at, contains, contains_delta,
}
use allocazam.Chunk.Geometry.{slot_div, slot_mod}
use allocazam.Chunk.Owner.{IsHeadered, granule-lt, at_bounds}

module _ (T : Layout) (c : Chunk) (is : IsHeadered T c) where
  -- The slot that `contains` computes from a distance.
  abbrev pub slot_of : ℕ → ℕ
  slot_of delta =
      delta / c.alloc_align * nodes_per_granule T c.alloc_align
      + (delta % c.alloc_align - header_offset T) / sizeof_node T

  at-slot_of :
      (delta : ℕ) → contains_delta T c delta ≡ true → at true T c (slot_of delta) ≡ c.nodes + delta
  unfolding contains_delta at
  at-slot_of delta h =
      let per = nodes_per_granule T c.alloc_align in
      let offset = delta % c.alloc_align in
      let idx = (offset - header_offset T) / sizeof_node T in
      let q = delta / c.alloc_align in
      let found : (header_offset T ≤ offset)
          × ((offset - header_offset T) % sizeof_node T ≡ 0)
          × (idx < per) =
        ground arith in
      let row : slot_of delta / per ≡ q =
        mul-add-div_right {m = per} is.per_pos q idx ∙ rw (div-eq_of_lt found.2) (add-zero q) in
      let column : slot_of delta % per ≡ idx =
        mul-add-mod_self_right q per idx ∙ mod-eq_of_lt found.2 in
      rw (row, column)
        (omega (
          arith,
          found,
          div-add-mod' delta c.alloc_align,
          div-add-mod' (offset - header_offset T) (sizeof_node T),
        ))

  contains_delta-slot : (delta : ℕ) → contains_delta T c delta ≡ true → slot_of delta < c.count
  unfolding contains_delta
  contains_delta-slot delta h = ground arith

  delta_of_slot :
      (i : ℕ)
      → i < c.count
      → contains_delta T c (
          i / nodes_per_granule T c.alloc_align * c.alloc_align
          + (header_offset T + i % nodes_per_granule T c.alloc_align * sizeof_node T))
        ≡ true
  unfolding contains_delta
  delta_of_slot i lt =
      let per = nodes_per_granule T c.alloc_align in
      let r = mod-lt i is.per_pos in
      rw
        (
          slot_mod c.alloc_align (header_offset T) (sizeof_node T) per is.room is.size_pos (i / per)
              (i % per) r,
          slot_div c.alloc_align (header_offset T) (sizeof_node T) per is.room is.size_pos (i / per)
              (i % per) r,
          add-sub_cancel_left (header_offset T) (i % per * sizeof_node T),
          mul-mod_left (i % per) (sizeof_node T),
          mul-div_cancel (i % per) is.size_pos,
          div-add-mod' i per,
        )
        (ground arith)

  contains-at : (i : ℕ) → i < c.count → contains true T c (at true T c i) ≡ true
  unfolding contains
  contains-at i lt =
      let per = nodes_per_granule T c.alloc_align in
      let bounds = at_bounds T c is i lt in
      let g = granule-lt T c is i lt in
      let whole = mul-le-mul_right {m = suc (i / per)} {n = granule_count T c} c.alloc_align g in
      let next = suc-mul (i / per) c.alloc_align in
      let distance : at true T c i - c.nodes
          ≡ i / per * c.alloc_align + (header_offset T + i % per * sizeof_node T) =
        unfold at in omega arith in
      rw distance (ground (arith, is.not_null, delta_of_slot i lt))

  -- The slot is read back from its address, so no two slots share one.
  slot_of-at : (i : ℕ) → i < c.count → slot_of (at true T c i - c.nodes) ≡ i
  slot_of-at i lt =
      let per = nodes_per_granule T c.alloc_align in
      let r = mod-lt i is.per_pos in
      let distance : at true T c i - c.nodes
          ≡ i / per * c.alloc_align + (header_offset T + i % per * sizeof_node T) =
        unfold at in omega arith in
      rw (
        distance,
        slot_mod c.alloc_align (header_offset T) (sizeof_node T) per is.room is.size_pos (i / per)
            (i % per) r,
        slot_div c.alloc_align (header_offset T) (sizeof_node T) per is.room is.size_pos (i / per)
            (i % per) r,
        add-sub_cancel_left (header_offset T) (i % per * sizeof_node T),
        mul-div_cancel (i % per) is.size_pos,
        div-add-mod' i per,
      )

  pub at-injective : (i j : ℕ) → i < c.count → j < c.count → at true T c i ≡ at true T c j → i ≡ j
  at-injective i j lt lt' e =
      sym (slot_of-at i lt) ∙ ap (λ a. slot_of (a - c.nodes)) e ∙ slot_of-at j lt'

contains-delta :
    (T : Layout) (c : Chunk) (p : ℕ)
    → contains true T c p ≡ true
    → (contains_delta T c (p - c.nodes) ≡ true) × (c.nodes ≤ p)
unfolding contains
contains-delta T c p h = (ground arith, ground arith)

-- In a chunk with headers `contains` holds exactly at the addresses of the slots below the count:
-- not at a header, not inside a node, and not at the unused tail slots of the last granule.
pub contains_iff :
    (T : Layout) (c : Chunk) (p : ℕ)
    → IsHeadered T c
    → (contains true T c p ≡ true) ↔ ((i : ℕ) × (i < c.count) × (at true T c i ≡ p))
contains_iff T c p is = (
  λ h.
      let (inside, above) = contains-delta T c p h in
      (
        slot_of T c is (p - c.nodes),
        contains_delta-slot T c is (p - c.nodes) inside,
        at-slot_of T c is (p - c.nodes) inside ∙ omega arith,
      ),
  λ (i, lt, e). rw (← e) (contains-at T c is i lt),
)
