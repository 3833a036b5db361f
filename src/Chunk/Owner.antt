-- ===== src/Chunk/Owner.antt =====
-- The owner of a node is found by masking the node's address.
use native.Mathlib.Nat.{
  div-add-mod', div-lt_iff_lt-mul, lt-div-mul-add, mod-lt, add-mul, mul-le-mul_right, suc-mul,
}
use native.Mathlib.Decide.{ℕ_discrete}
use allocazam.Prelude.{
  ℕ, zero, suc, ◌+◌, ◌-◌, ◌*◌, ◌/◌, ◌%◌, ◌≤◌, ◌<◌, ◌≡◌, ◌≢◌, ◌∙◌, ap, true, false, arith, ◌==◌,
  ==_self,
}
use allocazam.Word.{size_max}
use allocazam.Word.Pow2.{IsPow2, and_not, and_not_granule}
use allocazam.Layout.{Layout}
use allocazam.Memory.{Memory}
use allocazam.Chunk.{
  sizeof_node, header_offset, nodes_per_granule, granule_count, Chunk, at, stamp_headers,
  stamp_owner,
}
use allocazam.Chunk.Geometry.{slot_ends, slot_div}

-- A chunk with headers as its constructor leaves it.
pub record IsHeadered (T : Layout) (c : Chunk) : Type 0 where
  pub not_null : c.nodes ≢ 0
  pub pow2 : IsPow2 c.alloc_align
  pub aligned : c.nodes % c.alloc_align ≡ 0
  pub size_pos : 0 < sizeof_node T
  pub per_pos : 0 < nodes_per_granule T c.alloc_align
  pub room : header_offset T + nodes_per_granule T c.alloc_align * sizeof_node T ≤ c.alloc_align
  pub top : c.nodes + granule_count T c * c.alloc_align ≤ size_max

module _ (T : Layout) (c : Chunk) (is : IsHeadered T c) where
  -- Every slot's granule is one of the chunk's.
  pub granule-lt : (i : ℕ) → i < c.count → i / nodes_per_granule T c.alloc_align < granule_count T c
  granule-lt i lt = (div-lt_iff_lt-mul is.per_pos).1 (
      omega (
        arith,
        is.per_pos,
        lt-div-mul-add {a = c.count + nodes_per_granule T c.alloc_align - 1} is.per_pos,
      ))

  -- The slot's address, split at its granule.
  at_split :
      (i : ℕ)
      → at true T c i
        ≡ (c.nodes / c.alloc_align + i / nodes_per_granule T c.alloc_align) * c.alloc_align
          + (header_offset T + i % nodes_per_granule T c.alloc_align * sizeof_node T)
  unfolding at
  at_split i =
      let base = div-add-mod' c.nodes c.alloc_align in
      omega (
        arith,
        base,
        is.aligned,
        add-mul (c.nodes / c.alloc_align) (i / nodes_per_granule T c.alloc_align) c.alloc_align,
      )

  -- A slot lies inside its granule, behind the header.
  pub at_bounds :
      (i : ℕ)
      → i < c.count
      → (c.nodes + i / nodes_per_granule T c.alloc_align * c.alloc_align + header_offset T
          ≤ at true T c i)
        × (at true T c i + sizeof_node T
            ≤ c.nodes + i / nodes_per_granule T c.alloc_align * c.alloc_align + c.alloc_align)
        × (at true T c i + sizeof_node T ≤ size_max)
        × (at true T c i + sizeof_node T ≤ c.nodes + granule_count T c * c.alloc_align)
  unfolding at
  at_bounds i lt =
      let r = mod-lt i is.per_pos in
      let e =
        slot_ends c.alloc_align (header_offset T) (sizeof_node T)
          (nodes_per_granule T c.alloc_align) is.room (i % nodes_per_granule T c.alloc_align) r in
      let g = granule-lt i lt in
      let whole =
        mul-le-mul_right {m = suc (i / nodes_per_granule T c.alloc_align)} {n = granule_count T c}
          c.alloc_align g in
      let next = suc-mul (i / nodes_per_granule T c.alloc_align) c.alloc_align in
      let top = is.top in (omega arith, omega arith, omega arith, omega arith)

  -- Clearing the low bits of a slot's address gives the base of its granule.
  pub mask-at :
      (i : ℕ)
      → i < c.count
      → and_not (at true T c i) (c.alloc_align - 1)
        ≡ c.nodes + i / nodes_per_granule T c.alloc_align * c.alloc_align
  mask-at i lt =
      let granule = c.alloc_align in
      let q = i / nodes_per_granule T granule in
      let divided =
        ap (λ x. x / granule) (at_split i)
        ∙ slot_div granule (header_offset T) (sizeof_node T) (nodes_per_granule T granule) is.room
            is.size_pos (c.nodes / granule + q) (i % nodes_per_granule T granule)
            (mod-lt i is.per_pos) in
      let small : at true T c i ≤ size_max = omega (arith, at_bounds i lt) in
      and_not_granule granule (at true T c i) is.pow2 small
      ∙ ap (λ x. x * granule) divided
      ∙ omega
          (arith, add-mul (c.nodes / granule) q granule, div-add-mod' c.nodes granule, is.aligned)

stamp_headers_lem :
    (owner base granule g : ℕ) (mem : Memory) (j : ℕ)
    → j < g
    → stamp_headers owner base granule g mem (base + j * granule) ≡ owner
unfolding stamp_headers
stamp_headers_lem owner base granule zero mem j lt = absurd (omega arith)
stamp_headers_lem owner base granule (suc g) mem j lt = elim (ℕ_discrete j g) [
  | yes e ↦ rw (e, ==_self (base + g * granule))
  | no ne ↦ ground (arith, stamp_headers_lem owner base granule g mem j (omega arith))
]

-- After `stamp_owner` the header that is found by masking the address of any slot, as a routed free
-- does, names the owner.
pub owner-at :
    (T : Layout) (c : Chunk) (owner : ℕ) (mem : Memory) (i : ℕ)
    → IsHeadered T c
    → i < c.count
    → stamp_owner T c owner mem (and_not (at true T c i) (c.alloc_align - 1)) ≡ owner
unfolding stamp_owner
owner-at T c owner mem i is lt =
    let real : (c.nodes == 0) ≡ false = ground (arith, is.not_null) in
    rw (mask-at T c is i lt, real)
      (stamp_headers_lem owner c.nodes c.alloc_align (granule_count T c) mem
        (i / nodes_per_granule T c.alloc_align) (granule-lt T c is i lt))
