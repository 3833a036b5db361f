-- ===== src/Chunk/Tests.antt =====
-- A chunk of ten two-word nodes on pages of 64 bytes.
use allocazam.Prelude.{
  ℕ, ◌-◌, ◌*◌, ◌^◌, ◌≡◌, ◌<◌, ◌↔◌, refl, true, none, some, arith, [], ◌∷◌, ◌++◌, leb, ◌&&◌,
  if◌then◌else◌,
}
use native.Mathlib.Nat.{mul-mod_right}
use allocazam.Word.{checked_add, checked_mul, round_to_multiple_of}
use allocazam.Word.Pow2.{has_single_bit, and_not}
use allocazam.Layout.{Layout, IsLayout}
use allocazam.Memory.{Memory}
use allocazam.Chunk.{
  Chunk, NewAligned, construct, at, contains, sizeof_node, header_offset, nodes_per_granule,
  granule_for, bit_ceil, stamp_owner, put, release, move_assign, clear_headers, granule_count,
}
use allocazam.Chunk.Outside.{Outside}
use allocazam.Chunk.Owner.{IsHeadered, owner-at}
use allocazam.Chunk.Contains.{contains_iff}
use allocazam.Chunk.Objects.{builds, assigns, starts, goes, no_chunk, Objects, IsOwned}
use allocazam.Chunk.Moves.{IsAssigned, Reach-IsOwned}
use allocazam.Chunk.Build.{IsNewAligned, construct-IsHeadered}

abbrev pub pair_layout : Layout
pair_layout = record { size = 16; align = 8 }

pair_layout-IsLayout : IsLayout pair_layout
unfolding has_single_bit
pair_layout-IsLayout = record {
  size_pos = omega arith;
  size_fits = omega arith;
  align_pow2 = refl;
  size_multiple = refl;
}

abbrev new_block : NewAligned
new_block bytes alignment =
    if leb bytes (2 ^ 20) && leb 1 alignment && leb alignment 4096
    then some (alignment * 8)
    else none

new_block-IsNewAligned : IsNewAligned new_block
new_block-IsNewAligned = record {
  not_null = λ bytes alignment p e. ground arith;
  aligned = λ bytes alignment p e. ground (arith, mul-mod_right alignment 8);
  fits = λ bytes alignment p e. ground arith;
}

abbrev zeros : Memory
zeros a = 0

-- Three nodes of 16 bytes fit behind the header of a granule of 64.
abbrev pub ten : Chunk
ten = record { count = 10; alloc_align = 64; nodes = 512 }

construct-IsHeadered_example :
    IsHeadered pair_layout ten
    × (ten.count ≡ 10)
    × (new_block (granule_count pair_layout ten * ten.alloc_align) ten.alloc_align ≡ some 512)
    × ((a : ℕ)
        → Outside 512 (granule_count pair_layout ten * ten.alloc_align) a
        → clear_headers 512 64 4 zeros a ≡ zeros a)
unfolding construct granule_for nodes_per_granule sizeof_node header_offset bit_ceil
    round_to_multiple_of checked_add checked_mul
construct-IsHeadered_example =
    construct-IsHeadered pair_layout new_block 10 64 0 zeros pair_layout-IsLayout (omega arith)
      (6, omega arith, refl) new_block-IsNewAligned (omega arith) refl

pub ten-IsHeadered : IsHeadered pair_layout ten
unfolding construct granule_for nodes_per_granule sizeof_node header_offset bit_ceil checked_add
    round_to_multiple_of checked_mul
ten-IsHeadered =
    (construct-IsHeadered pair_layout new_block 10 64 0 zeros pair_layout-IsLayout (omega arith)
      (6, omega arith, refl) new_block-IsNewAligned (omega arith) refl).0

owner-at_example :
    stamp_owner pair_layout ten 77 zeros (and_not (at true pair_layout ten 7) (ten.alloc_align - 1))
    ≡ 77
owner-at_example = owner-at pair_layout ten 77 zeros 7 ten-IsHeadered (omega arith)

contains_iff_example :
    (contains true pair_layout ten 656 ≡ true)
    ↔ ((i : ℕ) × (i < ten.count) × (at true pair_layout ten i ≡ 656))
contains_iff_example = contains_iff pair_layout ten 656 ten-IsHeadered

-- Slot 7 is the second node of the third granule.
pub at_seven : at true pair_layout ten 7 ≡ 672
unfolding at nodes_per_granule sizeof_node header_offset round_to_multiple_of
at_seven = refl

abbrev other_ten : Chunk
other_ten = record { count = 10; alloc_align = 64; nodes = 1024 }

abbrev two_chunks : ℕ → Chunk
two_chunks = put (put (λ x. no_chunk) 0 ten) 1 other_ten

-- The chunk at 0 is moved to that at 1, whose memory goes back.
abbrev moved : Objects
moved = record {
  chunks = (move_assign true pair_layout 1 0 two_chunks).0;
  given = other_ten ∷ ten ∷ [];
  deleted = (move_assign true pair_layout 1 0 two_chunks).1 ++ [];
}

Reach-IsOwned_example :
    IsOwned moved
    × ((this other : ℕ)
        → IsAssigned moved.chunks
            (move_assign true pair_layout this other moved.chunks).0
            this
            other)
Reach-IsOwned_example = Reach-IsOwned pair_layout moved (
    goes
      (goes (goes starts (builds 0 ten refl (omega arith) (λ x. omega arith)))
        (builds 1 other_ten refl (omega arith) (λ x. ground arith)))
      (assigns 1 0))

-- It is deleted with its alignment.
deleted_first : (move_assign true pair_layout 1 0 two_chunks).1 ≡ (1024, 64) ∷ []
unfolding move_assign release
deleted_first = refl
