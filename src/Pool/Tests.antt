-- ===== src/Pool/Tests.antt =====
-- A pool of two-word nodes on pages of 64 bytes, over a heap of blocks 2^24 bytes apart.
use allocazam.Chunk.{Chunk}
use allocazam.Prelude.{
  ℕ, suc, ◌+◌, ◌-◌, ◌*◌, ◌/◌, ◌%◌, ◌^◌, ◌≤◌, ◌<◌, ◌≡◌, ◌≢◌, refl, List, [], ◌∷◌, ◌++◌, true, false,
  ◌&&◌, none, some, ◌⊎◌, arith, ltb, leb, ◌==◌, length, if◌then◌else◌,
}
use allocazam.Word.{checked_add, checked_mul, round_to_multiple_of}
use allocazam.Word.Pow2.{pad_of, has_single_bit}
use allocazam.Memory.{Memory, write}
use allocazam.Exception.{Exception, Outcome, ok, throw}
use allocazam.Chunk.{
  NewAligned, construct, at, sizeof_node, header_offset, nodes_per_granule, granule_for, bit_ceil,
  stamp_owner,
}
use allocazam.Chunk.Build.{IsNewAligned}
use allocazam.Pool.{
  dynamic, Setup, Pool, blank, push_free_node, pop_free_node, push_slots, adopt, add_chunk,
  or_first_chunk, or_drain, drain_remote, construct_lazy, construct_noheap, noheap, allocate,
  remote_push, fixed_like,
}
use allocazam.Pool.Tally.{tally, drop_one}
use allocazam.Pool.Heap.{IsHeap, IsGiven}
use allocazam.Pool.Histories.{Reach, starts, goes, gives, parks, stores, IsSane, Step-IsSane}
use allocazam.Pool.Noheap.{construct_noheap-cases}
use allocazam.Pool.Reachable.{reachable-IsSane, reachable-live, reachable-allocate}
use allocazam.Pool.Add.{IsSound}
use allocazam.Pool.Invariant.{IsPool, remote_push-IsPool}
use allocazam.Pool.Drain.{onto, Kept, drain-IsPool}

abbrev blocks : ℕ → NewAligned
blocks k bytes alignment =
    if leb bytes (2 ^ 20) && ltb k 1000 && ((k + 1) * 2 ^ 24 % alignment == 0)
    then some ((k + 1) * 2 ^ 24)
    else none

blocks-IsNewAligned : (k : ℕ) → IsNewAligned (blocks k)
blocks-IsNewAligned k = record {
  not_null = λ bytes alignment p e. ground arith;
  aligned = λ bytes alignment p e. ground arith;
  fits = λ bytes alignment p e. ground arith;
}

abbrev pairs : Setup
pairs = record {
  layout = record { size = 16; align = 8 };
  mode = dynamic;
  headers = true;
  page = 64;
  news = blocks;
}

pairs-IsHeap : IsHeap pairs
unfolding has_single_bit
pairs-IsHeap = record {
  lay = record {
    size_pos = omega arith;
    size_fits = omega arith;
    align_pow2 = refl;
    size_multiple = refl;
  };
  small = omega arith;
  page_pow2 = (6, omega arith, refl);
  new = blocks-IsNewAligned;
  apart = λ j k lt bytes bytes' alignment alignment' base base' e e'. ground arith;
}

abbrev zeros : Memory
zeros a = 0

abbrev lazy_four : Pool
lazy_four = record (blank pairs 512 zeros) { next_growth = 4 }

-- The last slot of the first chunk is given.
first_given : (q : Pool) × (allocate pairs lazy_four ≡ some (q, ok 16777296))
unfolding allocate pop_free_node or_drain drain_remote or_first_chunk add_chunk construct
    granule_for nodes_per_granule sizeof_node header_offset bit_ceil round_to_multiple_of
    checked_add checked_mul adopt push_slots push_free_node at stamp_owner
first_given = (_, refl)

lazy-Reach : Reach pairs 512 4 zeros lazy_four []
unfolding construct_lazy has_single_bit
lazy-Reach = starts refl

one-Reach : Reach pairs 512 4 zeros first_given.0 (16777296 ∷ [])
one-Reach = goes lazy-Reach (gives 16777296 (omega arith) first_given.1)

-- Another thread frees the node.
parked-Reach : Reach pairs 512 4 zeros (remote_push first_given.0 16777296) []
parked-Reach = goes one-Reach (parks 16777296 (omega arith))

reachable-live_example :
    ((a : ℕ) → tally a (16777296 ∷ []) ≤ 1)
    × (tally 0 (16777296 ∷ []) ≡ 0)
    × ((a : ℕ) → 0 < tally a (16777296 ∷ []) → IsGiven pairs first_given.0.calls a)
    × (1 ≤ first_given.0.size)
    × (first_given.0.size ≤ first_given.0.capacity)
reachable-live_example = reachable-live pairs 512 4 zeros pairs-IsHeap refl (omega arith) one-Reach

abbrev parked_one : Pool
parked_one = remote_push first_given.0 16777296

reachable-allocate_example :
    (q : Pool) × (r : Outcome ℕ) × (allocate pairs parked_one ≡ some (q, r))
    × (((n : ℕ) × (r ≡ ok n) × (n ≢ 0) × (tally n [] ≡ 0))
        ⊎ ((r ≡ ok 0) × (fixed_like pairs.mode ≡ true) × (0 ≡ parked_one.capacity))
        ⊎ ((why : Exception) × (r ≡ throw why) × (0 ≡ parked_one.capacity)))
reachable-allocate_example =
    reachable-allocate pairs 512 4 zeros pairs-IsHeap refl (omega arith) parked-Reach

-- Two slots, the first one free and the second live.
abbrev half : Pool
half = record (blank pairs 512 zeros) { free_head = 1040; size = 1; capacity = 2 }

half-IsPool : IsPool half (1040 ∷ []) [] (1056 ∷ []) (1056 ∷ 1040 ∷ [])
half-IsPool = record {
  free_chain = (refl, omega arith, refl);
  parked_chain = refl;
  tallied = λ a. ground arith;
  once = λ a. ground arith;
  no_null = omega arith;
  numbered = refl;
  sized = refl;
  total = refl;
  bounded = omega arith;
}

half_parked-IsPool :
    IsPool
      (remote_push half 1056)
      (1040 ∷ [])
      (1056 ∷ [])
      (drop_one 1056 (1056 ∷ []))
      (1056 ∷ 1040 ∷ [])
half_parked-IsPool = remote_push-IsPool 1056 half-IsPool (omega arith)

drain-IsPool_example :
    (q : Pool) × (drain_remote (remote_push half 1056) ≡ some (q, true))
    × Kept (remote_push half 1056) q
    × IsPool q (onto (1056 ∷ []) (1040 ∷ [])) [] (drop_one 1056 (1056 ∷ [])) (1056 ∷ 1040 ∷ [])
drain-IsPool_example =
    drain-IsPool (remote_push half 1056) (1040 ∷ []) (1056 ∷ []) (drop_one 1056 (1056 ∷ []))
      (1056 ∷ 1040 ∷ []) half_parked-IsPool

-- The client writes the second word of its node.
Step-IsSane_example :
    IsSane pairs
      (record (first_given.0) { memory = write (first_given.0.memory) 16777304 5 })
      (16777296 ∷ [])
unfolding sizeof_node round_to_multiple_of
Step-IsSane_example =
    Step-IsSane pairs pairs-IsHeap refl
      (reachable-IsSane pairs 512 4 zeros (omega arith) pairs-IsHeap refl one-Reach)
      (stores 16777296 16777304 5 (omega arith) (omega arith) (omega arith))

-- The lists of a sound pool whose chunk of `n` slots came, or did not.
abbrev ChunkAdded : Pool → ℕ → Type 0
ChunkAdded p n =
    ((why : Exception) × (add_chunk pairs p n ≡ (record p { calls = suc p.calls }, throw why))
      × IsSound pairs (record p { calls = suc p.calls }) [] [] [] [])
    ⊎ ((more : List ℕ) × (q : Pool) × (add_chunk pairs p n ≡ (q, ok tt))
        × (length more ≡ n)
        × ((c : Chunk) × (q.chunks ≡ p.chunks ++ (c ∷ [])) × (c.count ≡ n))
        × IsSound pairs q (more ++ []) [] [] (more ++ []))

abbrev spans : Setup
spans = record {
  layout = record { size = 16; align = 8 };
  mode = noheap;
  headers = false;
  page = 64;
  news = blocks;
}

construct_noheap-cases_example :
    let unit = sizeof_node spans.layout in
    let pad = pad_of 8 1001 in
    ((why : Exception) × (construct_noheap spans 512 1001 100 zeros ≡ throw why)
      × (100 < pad + unit))
    ⊎ ((p : Pool) × (nodes : List ℕ) × (construct_noheap spans 512 1001 100 zeros ≡ ok p)
        × (length nodes ≡ (100 - pad) / unit)
        × (0 < length nodes)
        × IsPool p nodes [] [] nodes
        × ((a : ℕ) → 0 < tally a nodes → (1001 ≤ a) × (a + unit ≤ 1101) × (a % 8 ≡ 0)))
construct_noheap-cases_example =
    construct_noheap-cases spans 512 1001 100 zeros pairs-IsHeap.lay (omega arith) refl
      (omega arith) (omega arith)
