-- ===== src/Suballocated/Shared.antt =====
-- lib/allocazam.hpp: the calls that the suballocated allocators make of the pools, runners and caches
-- of a process, and which of them an allocator uses.
use allocazam.Prelude.{ℕ, Bool, false, ◌&&◌, leb, ◌==◌, if◌then◌else◌, Option, none, some}
use allocazam.Memory.{Memory}
use allocazam.Exception.{Outcome, ok, throw}
use allocazam.Pool.{Pool, heap_backed}
use allocazam.Pool
use allocazam.Runner.Runs.{Runner}
use allocazam.Runner.Calls
use allocazam.Runner.Chunks.{allocate_bytes}
use allocazam.Suballocated.{
  Setup, Process, Class, Allocator, Call, put, pool_setup, runner_setup, runs_of, is_default,
  has_thread_states, bound_runs,
}
use allocazam.Suballocated.States.{thread_state, local_state_or_null}
use allocazam.Suballocated.Cache.{tls_run_cutoff, tls_push, tls_pop_for_owner, tls_pop_any}

abbrev pub pool_at : Process → ℕ → Pool
pool_at w q = record (w.pools q) { memory = w.memory }

abbrev pub with_pool : Process → ℕ → Pool → Process
with_pool w q p = record w { memory = p.memory; pools = put w.pools q p }

abbrev pub runner_at : Process → ℕ → Runner
runner_at w r = record (w.runners r) { memory = w.memory }

abbrev pub with_runner : Process → ℕ → Runner → Process
with_runner w r runs = record w { memory = runs.memory; runners = put w.runners r runs }

abbrev pub class_of : Process → (t idx : ℕ) → Class
class_of w t idx = (w.threads t).classes idx

abbrev pub with_class : Process → (t idx : ℕ) → Memory → Class → Process
with_class w t idx mem cls = record w {
  memory = mem;
  threads = put w.threads t (record (w.threads t) { classes = put (w.threads t).classes idx cls });
}

-- The pools' and the runners' calls, on the shared memory.
unfoldable pub pool_deallocate : (q p : ℕ) → Process → Process
pool_deallocate q p w = with_pool w q (allocazam.Pool.deallocate (pool_at w q) p)

unfoldable pub pool_remote_push : (q p : ℕ) → Process → Process
pool_remote_push q p w = with_pool w q (allocazam.Pool.remote_push (pool_at w q) p)

unfoldable pub runner_deallocate : (r p : ℕ) → Process → Process
runner_deallocate r p w =
    with_runner w r (allocazam.Runner.Calls.deallocate_bytes (runner_at w r) p)

unfoldable pub runner_remote_push : (r p : ℕ) → Process → Process
runner_remote_push r p w = with_runner w r (allocazam.Runner.Calls.remote_push (runner_at w r) p)

abbrev after_pool : Process → ℕ → Option (Pool × Outcome ℕ) → Option (Process × Outcome ℕ)
after_pool w q none = none
after_pool w q (some (p, result)) = some (with_pool w q p, result)

unfoldable pub pool_allocate : Setup → ℕ → Call ℕ
pool_allocate s q w = after_pool w q (allocazam.Pool.allocate (pool_setup s q) (pool_at w q))

abbrev after_runner : Process → ℕ → Option (Runner × Outcome ℕ) → Option (Process × Outcome ℕ)
after_runner w r none = none
after_runner w r (some (runs, result)) = some (with_runner w r runs, result)

unfoldable pub runner_allocate : Setup → (r bytes : ℕ) → Call ℕ
runner_allocate s r bytes w =
    after_runner w r (allocate_bytes (runner_setup s r) (runner_at w r) bytes s.layout.align)

unfoldable pub runner_expand : (r p min_new_bytes : ℕ) → Process → Process × ℕ
runner_expand r p min_new_bytes w =
    let (runs, payload) = allocazam.Runner.Calls.expand (runner_at w r) p min_new_bytes in
    (with_runner w r runs, payload)

-- `_tls_push`, `_tls_pop_any` and `_tls_pop_for_owner` of the thread's cache.
unfoldable pub cache_push : (t idx p owner : ℕ) → Process → Process
cache_push t idx p owner w =
    let (mem, cls) = tls_push w.memory (class_of w t idx) p owner in with_class w t idx mem cls

unfoldable pub cache_pop_any : (t idx : ℕ) → Process → Process × ℕ
cache_pop_any t idx w =
    let (cls, node) = tls_pop_any w.memory (class_of w t idx) in
    (with_class w t idx w.memory cls, node)

unfoldable pub cache_pop_for_owner : (t idx owner : ℕ) → Call ℕ
cache_pop_for_owner t idx owner w = elim (tls_pop_for_owner w.memory (class_of w t idx) owner) [
  | none ↦ none
  | some (mem, cls, node) ↦ some (with_class w t idx mem cls, ok node)
]

-- `_can_use_tls_run_cache`
unfoldable pub can_use_tls_run_cache : Setup → Allocator → ℕ → Bool
can_use_tls_run_cache s a bytes =
    if heap_backed s.mode
    then (if s.layout.size == 1 then is_default a.mode && leb bytes tls_run_cutoff else false)
    else false

-- `_runs_ptr`
unfoldable pub runs_ptr : Setup → ℕ → Allocator → Call ℕ
runs_ptr s t a w =
    if is_default a.mode && has_thread_states s
    then (let (w', made) = thread_state s t w in
        some (w', elim made [ throw why ↦ throw why | ok state ↦ ok (runs_of s state) ]))
    else some (w, ok (bound_runs s a))

-- `_alloc_state`
unfoldable pub alloc_state : Setup → ℕ → Allocator → Call ℕ
alloc_state s t a w =
    if is_default a.mode && has_thread_states s
    then some (thread_state s t w)
    else some (w, ok a.state)

abbrev pub or_runs : Setup → ℕ → ℕ
or_runs s local = if local == 0 then 0 else runs_of s local

-- `_local_runs_or_null`
unfoldable pub local_runs_or_null : Setup → ℕ → Allocator → Process → ℕ
local_runs_or_null s t a w =
    if is_default a.mode then or_runs s (local_state_or_null s t w) else bound_runs s a
