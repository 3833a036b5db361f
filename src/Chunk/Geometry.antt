-- ===== src/Chunk/Geometry.antt =====
-- Where the slots of a chunk with headers lie inside their granules.
use native.Mathlib.Nat.{
  mul-le-mul_right, suc-mul, pow-succ', le-div_iff_mul-le, div-mul-le_self, mod-lt,
  mul-add-div_right, mul-add-mod_self_right, div-eq_of_lt, mod-eq_of_lt, add-zero,
}
use allocazam.Prelude.{
  ℕ, zero, suc, ◌+◌, ◌-◌, ◌*◌, ◌/◌, ◌%◌, ◌^◌, ◌≤◌, ◌<◌, ◌≡◌, refl, ◌∙◌, arith, max, leb, ◌==◌,
  ==_iff, inl, inr, Bool-cases,
}
use native.Mathlib.Decide.{dec_le}
use allocazam.Word.{round_to_multiple_of, wrap}
use allocazam.Word.Checked.{next_multiple-mod}
use allocazam.Word.Pow2.{IsPow2}
use allocazam.Layout.{Layout, IsLayout, align-le-size}
use allocazam.Chunk.{
  sizeof_node, node_alignment, node_size, header_offset, bit_ceil, bit_ceil_from,
  granule_header_size, granule_for, nodes_per_granule,
}

-- Slot `r` of a granule ends inside it.
module _ (granule header size per : ℕ) (room : header + per * size ≤ granule) where
  pub slot_ends : (r : ℕ) → r < per → header + r * size + size ≤ granule
  slot_ends r lt = omega (arith, mul-le-mul_right {m = suc r} {n = per} size lt, suc-mul r size)

  module _ (pos : 0 < size) where
    slot-lt : (r : ℕ) → r < per → header + r * size < granule
    slot-lt r lt = omega (arith, slot_ends r lt)

    -- The granule and the offset of a slot are read back by division.
    pub slot_div : (q r : ℕ) → r < per → (q * granule + (header + r * size)) / granule ≡ q
    slot_div q r lt =
        mul-add-div_right {m = granule} (omega (arith, slot-lt r lt)) q (header + r * size)
        ∙ rw (div-eq_of_lt (slot-lt r lt)) (add-zero q)

    pub slot_mod :
        (q r : ℕ) → r < per → (q * granule + (header + r * size)) % granule ≡ header + r * size
    slot_mod q r lt =
        mul-add-mod_self_right q granule (header + r * size) ∙ mod-eq_of_lt (slot-lt r lt)

bit_ceil_from_lem :
    (rounds k x : ℕ)
    → k + rounds ≡ 63
    → x ≤ 2 ^ 63
    → IsPow2 (bit_ceil_from rounds (2 ^ k) x) × (x ≤ bit_ceil_from rounds (2 ^ k) x)
unfolding bit_ceil_from
bit_ceil_from_lem zero k x sum le =
    let last : k ≡ 63 = omega arith in ((k, omega arith, refl), rw last le)
bit_ceil_from_lem (suc rounds) k x sum le = elim (Bool-cases (leb x (2 ^ k))) [
  | inl here ↦ rw here ((k, omega arith, refl), ground arith)
  | inr more ↦ rw (more, ← pow-succ' 2 k) (bit_ceil_from_lem rounds (suc k) x (omega arith) le)
]

-- `std::bit_ceil` is a power of two that is not below its argument.
pub bit_ceil_lem : (x : ℕ) → x ≤ 2 ^ 63 → IsPow2 (bit_ceil x) × (x ≤ bit_ceil x)
unfolding bit_ceil
bit_ceil_lem x le = bit_ceil_from_lem 63 0 x refl le

module _ (T : Layout) (lay : IsLayout T) (small : T.size ≤ 2 ^ 60) where
  pub node_alignment-le : node_alignment T ≤ 2 ^ 60
  node_alignment-le = omega (arith, align-le-size T lay)

  -- A node holds a value, and a pointer.
  pub sizeof_node_bounds : (T.size ≤ sizeof_node T) × (8 ≤ sizeof_node T) × (sizeof_node T ≤ 2 ^ 61)
  unfolding sizeof_node round_to_multiple_of
  sizeof_node_bounds =
      let align_pos : 0 < node_alignment T = omega arith in
      let rest = mod-lt (node_size T) align_pos in let bound = node_alignment-le in ground arith

  pub sizeof_node_multiple : sizeof_node T % node_alignment T ≡ 0
  unfolding sizeof_node round_to_multiple_of
  sizeof_node_multiple =
      let align_pos : 0 < node_alignment T = omega arith in
      let rest = mod-lt (node_size T) align_pos in
      let bound = node_alignment-le in
      elim (Bool-cases (node_size T % node_alignment T == 0)) [
        | inl e ↦ rw e ((==_iff _ 0).0 e)
        | inr e ↦
            let whole : wrap (node_size T + (node_alignment T - node_size T % node_alignment T))
                ≡ node_size T + (node_alignment T - node_size T % node_alignment T) =
              omega arith in
            rw (e, whole) (next_multiple-mod (node_size T) (node_alignment T) align_pos)
      ]

  module _ (page : ℕ) (page_pow2 : IsPow2 page) where
    granule_for_lem :
        IsPow2 (granule_for T page) × (sizeof_node T + header_offset T ≤ granule_for T page)
    unfolding granule_for header_offset
    granule_for_lem =
        let sizes = sizeof_node_bounds in
        let aligns = node_alignment-le in
        let least = sizeof_node T + max granule_header_size (node_alignment T) in
        let (pow, le) = bit_ceil_lem least (omega arith) in
        elim (dec_le page (bit_ceil least)) [
          | yes h ↦
              let e : max page (bit_ceil least) ≡ bit_ceil least = omega arith in rw e (pow, le)
          | no h ↦
              let e : max page (bit_ceil least) ≡ page = omega arith in
              rw e (page_pow2, omega arith)
        ]

    pub granule-IsPow2 : IsPow2 (granule_for T page)
    granule-IsPow2 = granule_for_lem.0

    -- A granule holds at least one node, and all its nodes behind the header.
    pub granule_room :
        (0 < nodes_per_granule T (granule_for T page))
        × (header_offset T + nodes_per_granule T (granule_for T page) * sizeof_node T
            ≤ granule_for T page)
    unfolding nodes_per_granule
    granule_room =
        let room = granule_for_lem.1 in
        let sizes = sizeof_node_bounds in
        (
          (le-div_iff_mul-le (omega arith)).1 (omega arith),
          omega (arith, div-mul-le_self (granule_for T page - header_offset T) (sizeof_node T)),
        )
