-- ===== src/Suballocated/Tests.antt =====
-- A process with one thread state at 2048, whose pool has a chunk of ten two-word nodes, and a class
-- of cached runs.
use allocazam.Prelude.{
  ℕ, ◌+◌, ◌*◌, ◌≤◌, ◌<◌, ◌≡◌, refl, List, [], ◌∷◌, false, ◌||◌, some, none, arith, ltb, ◌==◌, min,
  if◌then◌else◌,
}
use allocazam.Memory.{Memory}
use allocazam.OwnedMemory.{disabled}
use allocazam.OwnedMemory.Tests.{small_platform}
use allocazam.Chunk.{at, granule_for, nodes_per_granule, sizeof_node, header_offset, bit_ceil}
use allocazam.Word.{round_to_multiple_of, checked_add}
use allocazam.Word.Pow2.{and_not}
use allocazam.Chunk.Tests.{pair_layout, ten, ten-IsHeadered}
use allocazam.Runner.Sizes.{normalized_run_bytes_for_payload}
use allocazam.Runner.Runs.{Runner}
use allocazam.Pool.{Pool, dynamic}
use allocazam.Pool.Invariant.{IsPool}
use allocazam.Suballocated.{
  Setup, Process, Class, construct_default, construct_explicit, construct_rebound, max_size,
  bind_result, return,
}
use allocazam.Suballocated.Allocators.{IsRebound, construct_rebound-IsFormed}
use allocazam.Suballocated.Cache.{
  tls_class_index_for, tls_class_bytes, tls_align_up, tls_pop_for_owner,
}
use allocazam.Suballocated.Cache.Sizes.{same_class-fits}
use allocazam.Suballocated.Cache.Lists.{IsCached, Popped, tls_pop_for_owner-Popped}
use allocazam.Suballocated.States.{thread_state}
use allocazam.Suballocated.States.Registry.{
  IsStateNew, Touched, starts, touches, IsRegistered, histories-IsRegistered,
}
use allocazam.Suballocated.Shared.{pool_at}
use allocazam.Suballocated.Routing.Nodes.{IsHome, deallocate-IsHome}
use allocazam.Suballocated.Calls.{allocate, allocate_at_least, count_at_least, deallocate}
use allocazam.Suballocated.Calls.Counts.{count-bounds, allocate_at_least-wraps}

abbrev pairs : Setup
pairs = record {
  layout = pair_layout;
  mode = dynamic;
  huge = disabled;
  page = 64;
  runs_offset = 256;
  state_news = λ k. if ltb k 1000 then (k + 1) * 2048 else 0;
  node_news = λ q k bytes alignment. none;
  chunk_nodes = λ r k. false;
  platforms = λ r k. small_platform;
}

abbrev no_runner : Runner
no_runner = record {
  self = 0;
  bins = λ i. 0;
  bin_nonempty_mask = λ w. 0;
  chunks = [];
  page_size = 64;
  next_growth = 0;
  deferred_bytes = 0;
  remote_head = 0;
  memory = λ a. 0;
  calls = 0;
}

-- The granules of `ten` name the pool.
abbrev stamped : Memory
stamped a = if a == 512 || a == 576 || a == 640 || a == 704 then 2048 else 0

-- Of the slots one is used, and live.
abbrev one_live : Pool
one_live = record {
  self = 2048;
  size = 1;
  capacity = 1;
  next_growth = 4;
  page_size = 64;
  nodes_per_page = 4;
  alloc_align = 64;
  free_head = 0;
  chunks = ten ∷ [];
  remote_head = 0;
  memory = stamped;
  calls = 1;
}

abbrev unstarted : Process
unstarted = record {
  memory = stamped;
  pools = λ q. one_live;
  runners = λ r. no_runner;
  registry_next = λ q. 0;
  registry = 0;
  threads = λ t. record { state = 0; classes = λ idx. record { head = 0; count = 0 } };
  states_made = 0;
}

one_live-IsPool : IsPool (pool_at unstarted 2048) [] [] (672 ∷ []) (672 ∷ [])
one_live-IsPool = record {
  free_chain = refl;
  parked_chain = refl;
  tallied = λ a. omega arith;
  once = λ a. ground arith;
  no_null = refl;
  numbered = refl;
  sized = refl;
  total = refl;
  bounded = omega arith;
}

-- Thread 7 has no state of its own.
deallocate-IsHome_example :
    IsHome unstarted
      (deallocate pairs 7 construct_default 672 1 unstarted)
      2048
      672
      false
      []
      []
      (672 ∷ [])
      (672 ∷ [])
unfolding at nodes_per_granule sizeof_node header_offset round_to_multiple_of granule_for bit_ceil
    construct_default
deallocate-IsHome_example =
    deallocate-IsHome pairs 7 construct_default unstarted 2048 ten 7 refl refl (omega arith)
      ten-IsHeadered (omega arith) refl (λ g lt. ground arith) (omega arith) one_live-IsPool

same_class-fits_example : (110 + 16 ≤ 128) × (tls_class_bytes (tls_class_index_for 100) + 16 ≤ 128)
unfolding tls_class_index_for tls_align_up and_not normalized_run_bytes_for_payload checked_add
same_class-fits_example =
    same_class-fits 100 110 128 (omega arith) (omega arith) (omega arith) (omega arith) refl refl

-- Two runs, of the owners 5 and 6.
abbrev two_cached : Memory
two_cached a = if a == 64 then 96 else if a == 72 then 5 else if a == 104 then 6 else 0

abbrev two : Class
two = record { head = 64; count = 2 }

two-IsCached : IsCached two_cached two (64 ∷ 96 ∷ [])
two-IsCached = record {
  chain = (refl, omega arith, (refl, omega arith, refl));
  counted = refl;
  once = λ a. ground arith;
  aligned = λ a h. ground arith;
  bounded = omega arith;
}

tls_pop_for_owner-Popped_example :
    (popped : Memory × Class × ℕ) × (tls_pop_for_owner two_cached two 6 ≡ some popped)
    × Popped two_cached two (64 ∷ 96 ∷ []) 6 popped
tls_pop_for_owner-Popped_example =
    tls_pop_for_owner-Popped two_cached two 6 (64 ∷ 96 ∷ []) two-IsCached

count-bounds_example :
    (100 ≤ count_at_least pairs 100)
    × (count_at_least pairs 100 ≤ max_size pair_layout)
    × (count_at_least pairs 100 ≡ min 150 (max_size pair_layout))
unfolding max_size
count-bounds_example = count-bounds pairs 100 (omega arith)

-- Two values of sixteen bytes for more than 2^63.
allocate_at_least-wraps_example :
    (2 ≤ max_size pair_layout)
    × (2 < 12297829382473034412)
    × (allocate_at_least pairs 7 construct_default 12297829382473034412 unstarted
        ≡ bind_result (allocate pairs 7 construct_default 2 unstarted) (λ p. return (p, 2)))
unfolding max_size
allocate_at_least-wraps_example =
    allocate_at_least-wraps pairs 7 construct_default 12297829382473034412 unstarted refl
      (omega arith) (omega arith) (omega arith) (omega arith)

construct_rebound-IsFormed_example :
    IsRebound pairs pairs
      (construct_explicit 2048)
      (construct_rebound pairs (construct_explicit 2048))
unfolding construct_explicit
construct_rebound-IsFormed_example =
    construct_rebound-IsFormed pairs pairs (construct_explicit 2048) (omega arith, refl)

pairs-IsStateNew : IsStateNew pairs
pairs-IsStateNew i j lt real same = ground arith

-- Thread 7, then thread 8.
two-Touched : Touched pairs (thread_state pairs 8 (thread_state pairs 7 unstarted).0).0
two-Touched =
    touches 8 (touches 7 (starts (record { empty = refl; untouched = λ t. refl; unmade = refl })))

histories-IsRegistered_example :
    (states : List ℕ) × IsRegistered pairs
      (thread_state pairs 8 (thread_state pairs 7 unstarted).0).0
      states
histories-IsRegistered_example = histories-IsRegistered pairs pairs-IsStateNew two-Touched
