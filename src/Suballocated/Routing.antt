-- ===== src/Suballocated/Routing.antt =====
-- lib/allocazam.hpp: frees that go home to the pool or runner that owns the node or the run, and the
-- drains of a thread's cache.
pub mod Nodes
use allocazam.Prelude.{
  ℕ, zero, suc, ◌+◌, ◌-◌, Bool, true, false, ◌&&◌, ltb, leb, ◌==◌, not, if◌then◌else◌, Option, none,
  some,
}
use allocazam.Word.Pow2.{and_not}
use allocazam.Chunk.{granule_for}
use allocazam.Pool.{heap_backed}
use allocazam.Runner.Calls.{owner_of}
use allocazam.Suballocated.{
  Setup, Process, Thread, Class, Allocator, put, runs_of, is_default, bound_runs,
}
use allocazam.Suballocated.Cache.{
  tls_run_class_count, tls_high_watermark, tls_drain_low_watermark, tls_class_index_for,
  cached_owner,
}
use allocazam.Suballocated.States.{local_state_or_null}
use allocazam.Suballocated.Shared.{
  class_of, pool_deallocate, pool_remote_push, runner_deallocate, runner_remote_push, cache_push,
  cache_pop_any, or_runs, local_runs_or_null,
}

-- The owner that the granule of a node names.
unfoldable pub node_owner : Setup → Process → ℕ → ℕ
node_owner s w p = w.memory (and_not p (granule_for s.layout s.page - 1))

-- `_free_node_routed`
unfoldable pub free_node_routed : Setup → ℕ → Allocator → ℕ → Process → Process
free_node_routed s t a p w =
    if heap_backed s.mode && is_default a.mode
    then (let owner = node_owner s w p in
        let local = local_state_or_null s t w in
        if not (local == 0) && owner == local
        then pool_deallocate local p w
        else pool_remote_push owner p w)
    else pool_deallocate a.state p w

-- A run goes to its owner: directly if that is the thread's own runner.
unfoldable pub send_home : (local owner p : ℕ) → Process → Process
send_home local owner p w =
    if owner == local then runner_deallocate owner p w else runner_remote_push owner p w

-- `_free_run_routed`
unfoldable pub free_run_routed : Setup → ℕ → Allocator → ℕ → Process → Process
free_run_routed s t a p w =
    if is_default a.mode
    then send_home (local_runs_or_null s t a w) (owner_of w.memory p) p w
    else runner_deallocate (bound_runs s a) p w

-- The loop of `_tls_drain_class`, for as many rounds.
unfoldable pub drain_rounds :
    ℕ → Setup → (t : ℕ) → Allocator → (idx keep_count : ℕ) → Process → Process
drain_rounds zero s t a idx keep_count w = w
drain_rounds (suc rounds) s t a idx keep_count w =
    let (popped, node) = cache_pop_any t idx w in
    let home =
      send_home (local_runs_or_null s t a popped) (cached_owner popped.memory node) node popped in
    let rest = drain_rounds rounds s t a idx keep_count home in
    if ltb keep_count (class_of w t idx).count then (if node == 0 then popped else rest) else w

-- Each round counts one run less.
unfoldable pub drain_class : Setup → (t : ℕ) → Allocator → (idx keep_count : ℕ) → Process → Process
drain_class s t a idx keep_count w = drain_rounds (class_of w t idx).count s t a idx keep_count w

drain_classes : ℕ → Setup → (t : ℕ) → Allocator → Process → Process
drain_classes zero s t a w = w
drain_classes (suc idx) s t a w = drain_class s t a idx 0 (drain_classes idx s t a w)

-- `_tls_drain_all`
unfoldable pub drain_all : Setup → (t : ℕ) → Allocator → Process → Process
unfolding drain_classes
drain_all s t a w = drain_classes tls_run_class_count s t a w

-- `_deallocate_to_tls_run_cache`
unfoldable pub deallocate_to_cache : Setup → (t : ℕ) → Allocator → (p bytes : ℕ) → Process → Process
deallocate_to_cache s t a p bytes w =
    let idx = tls_class_index_for bytes in
    let drained =
      if leb tls_high_watermark (class_of w t idx).count
      then drain_class s t a idx tls_drain_low_watermark w
      else w in
    cache_push t idx p (owner_of drained.memory p) drained

-- The inner loop of `~tls_run_cache`, over at most as many runs as it is given.
unfoldable pub release_runs : ℕ → (local node : ℕ) → Process → Option Process
release_runs zero local node w = if node == 0 then some w else none
release_runs (suc runs) local node w =
    let next = w.memory node in
    let owner = cached_owner w.memory node in
    elim (node == 0) [
      | true ↦ some w
      | false ↦
          release_runs runs local next (if owner == 0 then w else send_home local owner node w)
    ]

abbrev emptied : (t idx : ℕ) → Process → Process
emptied t idx w = record w {
  threads = put w.threads t (record (w.threads t) {
    classes = put (w.threads t).classes idx (record { head = 0; count = 0 });
  });
}

-- Its outer loop, up to a class.
unfoldable pub release_classes : ℕ → (t local : ℕ) → Process → Option Process
release_classes zero t local w = some w
release_classes (suc idx) t local w = elim (release_classes idx t local w) [
  | none ↦ none
  | some w' ↦
      let cls = class_of w' t idx in
      elim (release_runs cls.count local cls.head w') [
        | none ↦ none
        | some w'' ↦ some (emptied t idx w'')
      ]
]

-- `~tls_run_cache`, when the thread exits.
unfoldable pub release_cache : Setup → ℕ → Process → Option Process
release_cache s t w =
    release_classes tls_run_class_count t (or_runs s (local_state_or_null s t w)) w
