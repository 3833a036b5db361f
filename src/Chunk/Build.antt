-- ===== src/Chunk/Build.antt =====
-- The constructor of a chunk with headers.
use native.Mathlib.Nat.{div-le_self}
use allocazam.Prelude.{
  ℕ, ◌+◌, ◌-◌, ◌*◌, ◌/◌, ◌%◌, ◌^◌, ◌≤◌, ◌<◌, ◌≡◌, ◌≢◌, refl, true, some, inl, inr, arith,
  Option-cases,
}
use allocazam.Word.{size_mod, size_max, checked_add, checked_mul}
use allocazam.Word.Checked.{checked_add_exact, checked_mul_exact}
use allocazam.Word.Pow2.{IsPow2, pow2-le}
use allocazam.Layout.{Layout, IsLayout}
use allocazam.Memory.{Memory}
use allocazam.Exception.{ok}
use allocazam.Chunk.{
  Chunk, NewAligned, construct, construct_with_headers, sizeof_node, header_offset,
  nodes_per_granule, granule_for, granule_count, clear_headers,
}
use allocazam.Chunk.Outside.{Outside, clear_headers-Outside}
use allocazam.Chunk.Geometry.{granule-IsPow2, granule_room, sizeof_node_bounds}
use allocazam.Chunk.Owner.{IsHeadered}

-- What C++ promises of an aligned `operator new[]` that returns.
pub record IsNewAligned (new_aligned : NewAligned) : Type 0 where
  pub not_null : (bytes alignment p : ℕ) → new_aligned bytes alignment ≡ some p → p ≢ 0
  pub aligned : (bytes alignment p : ℕ) → new_aligned bytes alignment ≡ some p → p % alignment ≡ 0
  pub fits : (bytes alignment p : ℕ) → new_aligned bytes alignment ≡ some p → p + bytes < size_mod

parts :
    (T : Layout) (new_aligned : NewAligned) (sz page : ℕ) (mem : Memory) {c : Chunk} {mem' : Memory}
    → construct_with_headers T new_aligned sz page mem ≡ ok (c, mem')
    → let G = granule_for T page in
      let per = nodes_per_granule T G in
      (sum bytes raw : ℕ) × (checked_add sz (per - 1) ≡ some sum)
      × (checked_mul (sum / per) G ≡ some bytes)
      × (new_aligned bytes G ≡ some raw)
      × (c ≡ record { count = sz; alloc_align = G; nodes = raw })
      × (mem' ≡ clear_headers raw G (sum / per) mem)
unfolding construct_with_headers
parts T new_aligned sz page mem e =
    let G = granule_for T page in
    let per = nodes_per_granule T G in
    elim (Option-cases (checked_add sz (per - 1))) [
      | inl failed ↦ absurd (ground arith)
      | inr (sum, got_sum) ↦ elim (Option-cases (checked_mul (sum / per) G)) [
        | inl failed ↦ absurd (ground arith)
        | inr (bytes, got_bytes) ↦ elim (Option-cases (new_aligned bytes G)) [
          | inl failed ↦ absurd (ground arith)
          | inr (raw, got_raw) ↦
              (sum, bytes, raw, got_sum, got_bytes, got_raw, ground arith, ground arith)
        ]
      ]
    ]

-- A granule has room for the words of its header.
granule_big :
    (T : Layout) → IsLayout T → T.size ≤ 2 ^ 60 → (page : ℕ) → IsPow2 page → 8 < granule_for T page
unfolding header_offset
granule_big T lay small page pow = omega (arith, granule_room T lay small page pow)

-- With a value type of at most 2^60 bytes and pages of a power of two, what the constructor builds
-- is a well-formed chunk with headers that has the number of slots asked for; its memory is what
-- `operator new[]` gave, and nothing outside it is written.
pub construct-IsHeadered :
    (T : Layout) (new_aligned : NewAligned) (sz page alignment : ℕ) (mem : Memory) {c : Chunk}
    {mem' : Memory}
    → IsLayout T
    → T.size ≤ 2 ^ 60
    → IsPow2 page
    → IsNewAligned new_aligned
    → sz ≤ size_max
    → construct true T new_aligned sz page alignment mem ≡ ok (c, mem')
    → IsHeadered T c
      × (c.count ≡ sz)
      × (new_aligned (granule_count T c * c.alloc_align) c.alloc_align ≡ some c.nodes)
      × ((a : ℕ) → Outside c.nodes (granule_count T c * c.alloc_align) a → mem' a ≡ mem a)
unfolding construct
construct-IsHeadered T new_aligned sz page alignment mem {c} {mem'} lay small pow new fits e =
    let G = granule_for T page in
    let (per_pos, room) = granule_room T lay small page pow in
    let granule_small = pow2-le (granule-IsPow2 T lay small page pow) in
    let sizes = sizeof_node_bounds T lay small in
    let per_small : nodes_per_granule T G ≤ G =
      unfold nodes_per_granule in
      omega (arith, div-le_self (G - header_offset T) (sizeof_node T)) in
    let (sum, bytes, raw, got_sum, got_bytes, got_raw, chunk, written) =
      parts T new_aligned sz page mem e in
    let exact_sum = checked_add_exact sz (nodes_per_granule T G - 1) fits (omega arith) got_sum in
    let exact_bytes =
      checked_mul_exact (sum / nodes_per_granule T G) G
        (omega (arith, exact_sum, div-le_self sum (nodes_per_granule T G))) (omega arith)
        got_bytes in
    let same : sz + nodes_per_granule T G - 1 ≡ sum = omega (arith, exact_sum) in
    let bytes_eq : bytes ≡ sum / nodes_per_granule T G * G = exact_bytes.0 in
    rw (chunk, written)
      (
        record {
          not_null = new.not_null bytes G raw got_raw;
          pow2 = granule-IsPow2 T lay small page pow;
          aligned = new.aligned bytes G raw got_raw;
          size_pos = omega (arith, sizes);
          per_pos = per_pos;
          room = room;
          top = rw same (omega (arith, exact_bytes, new.fits bytes G raw got_raw));
        },
        refl,
        rw same (rw bytes_eq at got_raw),
        λ a out.
            clear_headers-Outside raw G (sum / nodes_per_granule T G) mem a
              (granule_big T lay small page pow) (rw same at out),
      )
