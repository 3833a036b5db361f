-- ===== src/Suballocated/Routing/Nodes.antt =====
-- A node that any thread frees goes home to its pool.
use native.Mathlib.Decide.{ℕ_discrete}
use allocazam.Prelude.{
  ℕ, ◌+◌, ◌*◌, ◌/◌, ◌<◌, ◌≡◌, ◌≢◌, refl, sym, List, [], ◌∷◌, Bool, true, false, ◌&&◌, not, arith,
  ◌==◌, ==_self, Bool-cases, inl, inr, if◌then◌else◌,
}
use allocazam.Memory.{Memory}
use allocazam.Chunk.{Chunk, at, granule_for, granule_count, nodes_per_granule}
use allocazam.Chunk.Owner.{IsHeadered, mask-at, granule-lt}
use allocazam.Pool.{Pool, heap_backed, push_free_node}
use allocazam.Pool
use allocazam.Pool.Tally.{tally, drop_one}
use allocazam.Pool.Invariant.{IsPool, same-IsPool, live_only, deallocate-IsPool, remote_push-IsPool}
use allocazam.Suballocated.{Setup, Process, Allocator, is_default, is_disabled, has_thread_states}
use allocazam.Suballocated.States.{local_state_or_null}
use allocazam.Suballocated.Shared.{pool_at, pool_deallocate, pool_remote_push}
use allocazam.Suballocated.Routing.{node_owner, free_node_routed}
use allocazam.Suballocated.Calls.{deallocate}

-- Every granule of the chunk names the pool.
abbrev pub IsStamped : Setup → Memory → Chunk → ℕ → Type 0
IsStamped s mem c q = (g : ℕ) → g < granule_count s.layout c → mem (c.nodes + g * c.alloc_align) ≡ q

-- A pool without the heads of its lists and the number of its live nodes, and without the memory, which
-- is the process's.
abbrev pub but_lists : Pool → Pool
but_lists p = record p { size = 0; free_head = 0; remote_head = 0; memory = λ a. 0 }

abbrev pub no_pool : Pool
no_pool = record {
  self = 0;
  size = 0;
  capacity = 0;
  next_growth = 0;
  page_size = 0;
  nodes_per_page = 0;
  alloc_align = 0;
  free_head = 0;
  chunks = [];
  remote_head = 0;
  memory = λ a. 0;
  calls = 0;
}

deallocate-but_lists :
    (pool : Pool) (p : ℕ) → but_lists (allocazam.Pool.deallocate pool p) ≡ but_lists pool
unfolding allocazam.Pool.deallocate push_free_node
deallocate-but_lists pool p = elim (Bool-cases (p == 0)) [
  | inl null ↦ rw null refl
  | inr real ↦ rw real refl
]

-- A process without its memory and its pools.
abbrev pub but_pools : Process → Process
but_pools w = record w { memory = λ a. 0; pools = λ q. no_pool }

-- The pools and the memory after a free by the owner or by another thread.
pub record IsHome (w w' : Process) (q p : ℕ) (mine : Bool) (frees parked live slots : List ℕ)
    : Type 0 where
  pub pool :
      IsPool
        (pool_at w' q)
        (if mine then p ∷ frees else frees)
        (if mine then parked else p ∷ parked)
        (drop_one p live)
        slots
  pub memory : (a : ℕ) → a ≢ p → w'.memory a ≡ w.memory a
  pub pools : (q' : ℕ) → q' ≢ q → w'.pools q' ≡ w.pools q'
  pub others : but_lists (w'.pools q) ≡ but_lists (w.pools q)
  pub process : but_pools w' ≡ but_pools w

module _ (s : Setup) (q p : ℕ) (w : Process) {frees parked live slots : List ℕ}
    (held : 0 < tally p live) (is : IsPool (pool_at w q) frees parked live slots) where
  freed-IsHome : IsHome w (pool_deallocate q p w) q p true frees parked live slots
  unfolding pool_deallocate allocazam.Pool.deallocate push_free_node
  freed-IsHome = record {
    pool = rw (==_self q) (same-IsPool refl refl refl refl refl (deallocate-IsPool p is held));
    memory = λ a ne. ground arith;
    pools = λ q' ne. ground arith;
    others = rw (==_self q) (deallocate-but_lists (pool_at w q) p);
    process = refl;
  }

  parked-IsHome : IsHome w (pool_remote_push q p w) q p false frees parked live slots
  unfolding pool_remote_push allocazam.Pool.remote_push
  parked-IsHome = record {
    pool = rw (==_self q) (same-IsPool refl refl refl refl refl (remote_push-IsPool p is held));
    memory = λ a ne. ground arith;
    pools = λ q' ne. ground arith;
    others = rw (==_self q) refl;
    process = refl;
  }

module _ (s : Setup) (t : ℕ) (a : Allocator) (w : Process) (q : ℕ) where
  -- The header that a slot's address leads to is one of the stamped ones.
  owner_of_slot :
      (c : Chunk) (i : ℕ)
      → IsHeadered s.layout c
      → i < c.count
      → c.alloc_align ≡ granule_for s.layout s.page
      → IsStamped s w.memory c q
      → node_owner s w (at true s.layout c i) ≡ q
  unfolding node_owner
  owner_of_slot c i head lt size stamped =
      rw (node_owner, sym size, mask-at s.layout c head i lt)
        (stamped (i / nodes_per_granule s.layout c.alloc_align) (granule-lt s.layout c head i lt))

  -- Whichever thread deallocates a single live value of a pool with stamped granules through a default
  -- allocator, the node goes back to that pool: on the pool's own thread to its free list, and on any
  -- other to the stack of parked nodes. Of that pool only the lists' heads and the number of live
  -- nodes change, no other pool and nothing else of the process does, neither runners, registry nor
  -- caches, and no word of memory but the node's first.
  pub deallocate-IsHome :
      (c : Chunk) (i : ℕ) {frees parked live slots : List ℕ}
      → has_thread_states s ≡ true
      → is_default a.mode ≡ true
      → q ≢ 0
      → IsHeadered s.layout c
      → i < c.count
      → c.alloc_align ≡ granule_for s.layout s.page
      → IsStamped s w.memory c q
      → 0 < tally (at true s.layout c i) live
      → IsPool (pool_at w q) frees parked live slots
      → IsHome w
          (deallocate s t a (at true s.layout c i) 1 w)
          q
          (at true s.layout c i)
          ((w.threads t).state == q)
          frees
          parked
          live
          slots
  unfolding deallocate free_node_routed local_state_or_null
  deallocate-IsHome c i heap def real head lt size stamped held is =
      let p = at true s.layout c i in
      let owner = owner_of_slot c i head lt size stamped in
      let backed : heap_backed s.mode ≡ true = ground arith in
      let real_node = (live_only p is held).0 in
      let not_null : (p == 0) ≡ false = ground arith in
      let plain : is_disabled s.huge ≡ true = ground arith in
      elim (ℕ_discrete (w.threads t).state q) [
        | yes e ↦
            let test : ((w.threads t).state == q) ≡ true = ground arith in
            let there : (q == 0) ≡ false = ground arith in
            rw (not_null, def, backed, owner, plain, test, e, there, ==_self q)
              (freed-IsHome s q p w held is)
        | no d ↦
            let test : ((w.threads t).state == q) ≡ false = ground arith in
            let other : (not ((w.threads t).state == 0) && q == (w.threads t).state) ≡ false =
              ground arith in
            rw (not_null, def, backed, owner, plain, other, test) (parked-IsHome s q p w held is)
      ]
