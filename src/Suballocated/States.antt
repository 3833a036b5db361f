-- ===== src/Suballocated/States.antt =====
-- lib/allocazam.hpp: the constructors of the suballocated states, a pool beside a runner, and the
-- states that the threads make on their first allocation.
pub mod Registry
use allocazam.Prelude.{
  ℕ, suc, ◌+◌, ◌-◌, ◌*◌, ◌/◌, Bool, true, false, max, ◌==◌, ◌&&◌, if◌then◌else◌,
}
use allocazam.Word.{wrap}
use allocazam.Memory.{Memory}
use allocazam.Exception.{bad_alloc, Outcome, ok, throw, ◌>>=◌}
use allocazam.Pool.{fixed, dynamic, noheap, Pool}
use allocazam.Pool
use allocazam.Runner.Runs.{Runner}
use allocazam.Runner.Chunks
use allocazam.Suballocated.{
  Setup, Process, Thread, put, pool_setup, runner_setup, runs_of, has_thread_states,
}

-- A state's pool and runner; its memory is the runner's.
pub record State : Type 0 where
  pub pool : Pool
  pub runs : Runner

-- The bytes of a fixed state's runner.
unfoldable pub fixed_runner_bytes : Setup → ℕ → ℕ
fixed_runner_bytes s pool_size = max (wrap (pool_size * s.layout.size)) 4096

-- A pool and a runner that are both constructed eagerly.
eager_state : Setup → (self pool_size runner_bytes : ℕ) → Memory → Outcome State
eager_state s self pool_size runner_bytes mem = do
  pool ← allocazam.Pool.construct_eager (pool_setup s self) self pool_size mem
  runs ←
      allocazam.Runner.Chunks.construct_eager (runner_setup s (runs_of s self)) (runs_of s self)
        runner_bytes pool.memory
  ok (record { pool = pool; runs = runs })

unfoldable pub construct_fixed_state : Setup → (self pool_size : ℕ) → Memory → Outcome State
unfolding eager_state
construct_fixed_state s self pool_size mem =
    eager_state s self pool_size (fixed_runner_bytes s pool_size) mem

unfoldable pub construct_dynamic_state :
    Setup → (self pool_size runner_bytes : ℕ) → Memory → Outcome State
unfolding eager_state
construct_dynamic_state s self pool_size runner_bytes mem =
    eager_state s self pool_size runner_bytes mem

-- Over two spans of the caller, and over the two halves of one.
unfoldable pub construct_noheap_state :
    Setup → (self node_begin node_size run_begin run_size : ℕ) → Memory → Outcome State
construct_noheap_state s self node_begin node_size run_begin run_size mem = do
  pool ← allocazam.Pool.construct_noheap (pool_setup s self) self node_begin node_size mem
  runs ←
      allocazam.Runner.Chunks.construct_external (runner_setup s (runs_of s self)) (runs_of s self)
        run_begin run_size pool.memory
  ok (record { pool = pool; runs = runs })

unfoldable pub construct_noheap_halves : Setup → (self begin size : ℕ) → Memory → Outcome State
construct_noheap_halves s self begin size mem =
    construct_noheap_state s self begin (size / 2) (begin + size / 2) (size - size / 2) mem

-- The initial bytes of a lazy state's runner.
unfoldable pub lazy_runner_bytes : Setup → ℕ
lazy_runner_bytes s = elim s.mode [ dynamic ↦ 65536 | _ ↦ max (wrap (4096 * s.layout.size)) 4096 ]

-- The constructors from `lazy_init`.
unfoldable pub construct_lazy_state : Setup → (self : ℕ) → Memory → Outcome State
construct_lazy_state s self mem = do
  pool ← allocazam.Pool.construct_lazy (pool_setup s self) self 4096 mem
  ok (record {
    pool = pool;
    runs =
        allocazam.Runner.Chunks.construct_lazy (runner_setup s (runs_of s self)) (runs_of s self)
          (lazy_runner_bytes s) pool.memory;
  })

-- The new state goes to the front of the registry, as the one step that its exchange makes it, and
-- to the thread.
unfoldable pub register : Setup → (t fresh : ℕ) → State → Process → Process
register s t fresh state w = record w {
  memory = state.runs.memory;
  pools = put w.pools fresh state.pool;
  runners = put w.runners (runs_of s fresh) state.runs;
  registry_next = put w.registry_next fresh w.registry;
  registry = fresh;
  threads = put w.threads t (record (w.threads t) { state = fresh });
}

-- `_thread_state` where the thread has none.
unfoldable pub make_thread_state : Setup → ℕ → Process → Process × Outcome ℕ
make_thread_state s t w =
    let fresh = s.state_news w.states_made in
    let called = record w { states_made = suc w.states_made } in
    if fresh == 0 then (called, throw bad_alloc) else elim (construct_lazy_state s fresh w.memory) [
      | throw why ↦ (called, throw why)
      | ok state ↦ (register s t fresh state called, ok fresh)
    ]

-- `_thread_state`
unfoldable pub thread_state : Setup → ℕ → Process → Process × Outcome ℕ
thread_state s t w =
    let slot = (w.threads t).state in if slot == 0 then make_thread_state s t w else (w, ok slot)

-- `_local_state_or_null`
unfoldable pub local_state_or_null : Setup → ℕ → Process → ℕ
local_state_or_null s t w = if has_thread_states s then (w.threads t).state else 0
