-- ===== src/Chunk.antt =====
-- lib/types.hpp: `node_t`, `granule_header` and `chunk_t`, the arrays of nodes behind the pool.
-- With `headers` every granule starts with a header that names the owning pool.
pub mod Geometry
pub mod Spacing
pub mod Contains
pub mod Owner
pub mod Build
pub mod Outside
pub mod Objects
pub mod Steps
pub mod Moves
pub mod Tests
use allocazam.Prelude.{
  ℕ, zero, suc, ◌+◌, ◌-◌, ◌*◌, ◌/◌, ◌%◌, Bool, true, false, ◌||◌, not, Option, none, some, max, ltb,
  leb, ◌==◌, if◌then◌else◌, List, [], ◌∷◌,
}
use allocazam.Word.{
  wrap, checked_add, checked_mul, checked_round_to_multiple_of, round_to_multiple_of,
}
use allocazam.Layout.{Layout}
use allocazam.Exception.{bad_alloc, bad_array_new_length, Outcome, ok, throw, or_throw, ◌>>=◌}
use allocazam.Memory.{Memory, write}

-- `alignof(node_t<T>)` and `sizeof(node_t<T>)`: storage for a value or a pointer, padded.
abbrev pub node_alignment : Layout → ℕ
node_alignment T = max T.align 8

abbrev pub node_size : Layout → ℕ
node_size T = max T.size 8

unfoldable pub sizeof_node : Layout → ℕ
sizeof_node T = round_to_multiple_of (node_size T) (node_alignment T)

-- `sizeof(granule_header)`; its `owner` is the first word and its `debug_tag` the second.
abbrev pub granule_header_size : ℕ
granule_header_size = 16

abbrev pub granule_debug_tag : ℕ
granule_debug_tag = 0xa110ca2a6a121e57

unfoldable pub header_offset : Layout → ℕ
header_offset T = max granule_header_size (node_alignment T)

bit_ceil_from : ℕ → ℕ → ℕ → ℕ
bit_ceil_from zero power x = power
bit_ceil_from (suc rounds) power x =
    let rest = bit_ceil_from rounds (2 * power) x in if leb x power then power else rest

-- `std::bit_ceil` at `size_t`
unfoldable pub bit_ceil : ℕ → ℕ
unfolding bit_ceil_from
bit_ceil x = bit_ceil_from 63 1 x

unfoldable pub granule_for : Layout → ℕ → ℕ
granule_for T page_size = max page_size (bit_ceil (sizeof_node T + header_offset T))

unfoldable pub nodes_per_granule : Layout → ℕ → ℕ
nodes_per_granule T granule = (granule - header_offset T) / sizeof_node T

pub record Chunk : Type 0 where
  pub count : ℕ
  pub alloc_align : ℕ
  pub nodes : ℕ

-- `operator new[]` with an alignment: the pointer, or `none` where it throws `bad_alloc`.
abbrev pub NewAligned : Type 0
NewAligned = (bytes alignment : ℕ) → Option ℕ

-- The headers' initial words, from granule `g` up.
unfoldable pub clear_headers : ℕ → ℕ → ℕ → Memory → Memory
clear_headers base granule zero mem = mem
clear_headers base granule (suc g) mem =
    write (write (clear_headers base granule g mem) (base + g * granule) 0) (base + g * granule + 8)
      granule_debug_tag

construct_with_headers : Layout → NewAligned → ℕ → ℕ → Memory → Outcome (Chunk × Memory)
construct_with_headers T new_aligned sz page_size mem = do
  let granule = granule_for T page_size
  let per_granule = nodes_per_granule T granule
  sum ← or_throw (checked_add sz (per_granule - 1)) bad_array_new_length
  let granule_count = sum / per_granule
  alloc_bytes ← or_throw (checked_mul granule_count granule) bad_array_new_length
  raw ← or_throw (new_aligned alloc_bytes granule) bad_alloc
  ok (
    record { count = sz; alloc_align = granule; nodes = raw },
    clear_headers raw granule granule_count mem,
  )

construct_raw : Layout → NewAligned → ℕ → ℕ → ℕ → Memory → Outcome (Chunk × Memory)
construct_raw T new_aligned sz page_size alloc_alignment mem = do
  node_bytes ← or_throw (checked_mul sz (sizeof_node T)) bad_array_new_length
  alloc_bytes ← or_throw (checked_round_to_multiple_of node_bytes page_size) bad_array_new_length
  raw ← or_throw (new_aligned alloc_bytes alloc_alignment) bad_alloc
  ok (record { count = sz; alloc_align = alloc_alignment; nodes = raw }, mem)

-- The owning constructor.
unfoldable pub construct :
    (headers : Bool)
    → Layout
    → NewAligned
    → (sz page_size alloc_alignment : ℕ) → Memory
    → Outcome (Chunk × Memory)
unfolding construct_with_headers construct_raw
construct true T new_aligned sz page_size alloc_alignment mem =
    construct_with_headers T new_aligned sz page_size mem
construct false T new_aligned sz page_size alloc_alignment mem =
    construct_raw T new_aligned sz page_size alloc_alignment mem

-- The constructor over nodes of the caller.
unfoldable pub construct_external : Layout → (external_nodes sz : ℕ) → Chunk
construct_external T external_nodes sz = record {
  count = sz;
  alloc_align = node_alignment T;
  nodes = external_nodes;
}

-- `at`, the address of a slot.
unfoldable pub at : (headers : Bool) → Layout → Chunk → ℕ → ℕ
at true T c i =
    let per_granule = nodes_per_granule T c.alloc_align in
    c.nodes + i / per_granule * c.alloc_align + header_offset T + i % per_granule * sizeof_node T
at false T c i = c.nodes + i * sizeof_node T

abbrev pub granule_count : Layout → Chunk → ℕ
granule_count T c =
    let per_granule = nodes_per_granule T c.alloc_align in (c.count + per_granule - 1) / per_granule

-- The test inside a granule, on the distance `delta` from the chunk's base.
contains_delta : Layout → Chunk → ℕ → Bool
contains_delta T c delta =
    let per_granule = nodes_per_granule T c.alloc_align in
    let offset = delta % c.alloc_align in
    let idx = (offset - header_offset T) / sizeof_node T in
    if ltb offset (header_offset T) || not ((offset - header_offset T) % sizeof_node T == 0)
    then false
    else if leb per_granule idx
    then false
    else ltb (delta / c.alloc_align * per_granule + idx) c.count

unfoldable pub contains : (headers : Bool) → Layout → Chunk → ℕ → Bool
unfolding contains_delta
contains true T c target =
    if c.nodes == 0
    then false
    else if ltb target c.nodes || leb (c.nodes + granule_count T c * c.alloc_align) target
    then false
    else contains_delta T c (target - c.nodes)
contains false T c target =
    if c.nodes == 0
    then false
    else if leb c.nodes target
    then ltb target (c.nodes + c.count * sizeof_node T)
    else false

-- The owners' words, for the first `g` granules.
unfoldable pub stamp_headers : ℕ → ℕ → ℕ → ℕ → Memory → Memory
stamp_headers owner base granule zero mem = mem
stamp_headers owner base granule (suc g) mem =
    write (stamp_headers owner base granule g mem) (base + g * granule) owner

unfoldable pub stamp_owner : Layout → Chunk → ℕ → Memory → Memory
unfolding stamp_headers
stamp_owner T c owner mem =
    if c.nodes == 0 then mem else stamp_headers owner c.nodes c.alloc_align (granule_count T c) mem

-- `release`, which the destructor calls, with the pointer and the alignment that go to
-- `operator delete[]`.
unfoldable pub release : (owns_memory : Bool) → Chunk → Chunk × List (ℕ × ℕ)
release owns_memory c = if c.nodes == 0 then (c, []) else (
  record c { nodes = 0; count = 0 },
  (if owns_memory then (c.nodes, c.alloc_align) ∷ [] else []),
)

-- The move constructor: the new chunk, and what the other one is left as.
unfoldable pub move_construct : Layout → Chunk → Chunk × Chunk
move_construct T other = (other, record { count = 0; alloc_align = node_alignment T; nodes = 0 })

-- The chunk objects by their addresses, with the one at `this` replaced.
abbrev pub put : (ℕ → Chunk) → ℕ → Chunk → ℕ → Chunk
put chunks this c x = if x == this then c else chunks x

-- The three exchanges of a move from the object at `other` to the one at `this`.
unfoldable pub move_into : Layout → (this other : ℕ) → (ℕ → Chunk) → ℕ → Chunk
move_into T this other chunks =
    let (taken, left) = move_construct T (chunks other) in put (put chunks this taken) other left

-- The move assignment between the objects at two addresses, with what it releases.
unfoldable pub move_assign :
    (owns_memory : Bool) → Layout → (this other : ℕ) → (ℕ → Chunk) → (ℕ → Chunk) × List (ℕ × ℕ)
unfolding release
move_assign owns_memory T this other chunks =
    if this == other
    then (chunks, [])
    else (let (released, deleted) = release owns_memory (chunks this) in
        (move_into T this other (put chunks this released), deleted))
