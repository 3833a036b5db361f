-- ===== src/Suballocated/Calls.antt =====
-- lib/allocazam.hpp: the operations of the suballocated `allocazam_std_allocator`.
pub mod Counts
use allocazam.Prelude.{
  ℕ, zero, suc, ◌+◌, ◌-◌, ◌*◌, ◌/◌, Bool, true, false, ◌&&◌, ◌||◌, ltb, ◌==◌, not, if◌then◌else◌,
  Option, none, some,
}
use allocazam.Word.{size_mod, wrap, checked_mul}
use allocazam.Exception.{bad_alloc, bad_array_new_length, Outcome, ok, throw}
use allocazam.Layout.{Layout}
use allocazam.Pool.{owns}
use allocazam.Runner.Calls.{owner_of, owns_run}
use allocazam.Suballocated.{
  Setup, Process, Allocator, Call, bind_result, ◌>>=◌, ◌>>◌, return, fail, modify, pool_setup,
  runs_of, is_default, is_dynamic, has_thread_states, bound_runs, max_size,
}
use allocazam.Suballocated.Cache.{tls_class_index_for, tls_class_bytes, tls_refill_batch}
use allocazam.Suballocated.States.{local_state_or_null}
use allocazam.Suballocated.Shared.{
  pool_at, runner_at, pool_allocate, runner_allocate, runner_expand, cache_push,
  cache_pop_for_owner, can_use_tls_run_cache, runs_ptr, alloc_state,
}
use allocazam.Suballocated.Routing.{
  free_node_routed, free_run_routed, drain_all, deallocate_to_cache,
}

-- `_runs().allocate_bytes(bytes, alignof(T))`
unfoldable pub allocate_run : Setup → ℕ → Allocator → ℕ → Call ℕ
allocate_run s t a bytes = do runs ← runs_ptr s t a; runner_allocate s runs bytes

-- `if (raw == nullptr) throw std::bad_alloc{}`
abbrev pub or_bad_alloc : ℕ → Call ℕ
or_bad_alloc raw = if raw == 0 then fail bad_alloc else return raw

-- The loop that fills the cache up, for as many rounds.
unfoldable pub refill :
    ℕ → Setup → (t : ℕ) → Allocator → (idx class_bytes owner : ℕ) → Call (Unit {0})
refill zero s t a idx class_bytes owner = return tt
refill (suc rounds) s t a idx class_bytes owner = do
  extra ← allocate_run s t a class_bytes
  if extra == 0
      then return tt
      else (modify (cache_push t idx extra owner) >> refill rounds s t a idx class_bytes owner)

-- The second try of `_allocate_from_tls_run_cache`, with an empty cache.
unfoldable pub allocate_drained : Setup → (t : ℕ) → Allocator → (class_bytes : ℕ) → Call ℕ
allocate_drained s t a class_bytes = modify (drain_all s t a) >> allocate_run s t a class_bytes

-- `_allocate_from_tls_run_cache` where the cache has no run of the owner.
unfoldable pub allocate_and_refill : Setup → (t : ℕ) → Allocator → (idx owner : ℕ) → Call ℕ
allocate_and_refill s t a idx owner = do
  let class_bytes = tls_class_bytes idx
  first ← allocate_run s t a class_bytes
  raw ← (if first == 0 then allocate_drained s t a class_bytes else return first)
  if raw == 0
      then return 0
      else if is_dynamic s.mode
      then (refill (tls_refill_batch - 1) s t a idx class_bytes owner >> return raw)
      else return raw

-- `_allocate_from_tls_run_cache`
unfoldable pub allocate_from_cache : Setup → (t : ℕ) → Allocator → ℕ → Call ℕ
allocate_from_cache s t a bytes = do
  let idx = tls_class_index_for bytes
  owner ← runs_ptr s t a
  node ← cache_pop_for_owner t idx owner
  if node == 0 then allocate_and_refill s t a idx owner else return node

-- `allocate` of one value.
unfoldable pub allocate_one : Setup → ℕ → Allocator → Call ℕ
allocate_one s t a = do
  state ← alloc_state s t a
  raw ← (if state == 0 then allocate_run s t a s.layout.size else pool_allocate s state)
  or_bad_alloc raw

-- `allocate` of several values.
unfoldable pub allocate_many : Setup → ℕ → Allocator → ℕ → Call ℕ
allocate_many s t a n = elim (checked_mul n s.layout.size) [
  | none ↦ fail bad_array_new_length
  | some bytes ↦ do
    cached ← (if can_use_tls_run_cache s a bytes then allocate_from_cache s t a bytes else return 0)
    if cached == 0 then (allocate_run s t a bytes >>= or_bad_alloc) else return cached
]

unfoldable pub allocate : Setup → ℕ → Allocator → ℕ → Call ℕ
allocate s t a n =
    if n == 0
    then return 0
    else if ltb (max_size s.layout) n
    then fail bad_array_new_length
    else if n == 1
    then allocate_one s t a
    else allocate_many s t a n

-- The count that `allocate_at_least` asks for.
unfoldable pub count_at_least : Setup → ℕ → ℕ
count_at_least s n =
    if is_dynamic s.mode && ltb 1 n
    then (let extra = n / 2 in
        if ltb (wrap (max_size s.layout + (size_mod - extra))) n
        then max_size s.layout
        else wrap (n + extra))
    else n

unfoldable pub allocate_at_least : Setup → ℕ → Allocator → ℕ → Call (ℕ × ℕ)
allocate_at_least s t a n =
    if n == 0
    then return (0, 0)
    else (do p ← allocate s t a (count_at_least s n); return (p, count_at_least s n))

-- `deallocate` of several values.
unfoldable pub deallocate_many : Setup → ℕ → Allocator → (p n : ℕ) → Process → Process
deallocate_many s t a p n w = elim (checked_mul n s.layout.size) [
  | none ↦ free_run_routed s t a p w
  | some bytes ↦
      if can_use_tls_run_cache s a bytes
      then deallocate_to_cache s t a p bytes w
      else free_run_routed s t a p w
]

unfoldable pub deallocate : Setup → ℕ → Allocator → (p n : ℕ) → Process → Process
deallocate s t a p n w =
    if p == 0 || n == 0
    then w
    else if n == 1
    then (if is_default a.mode || not (a.state == 0)
        then free_node_routed s t a p w
        else free_run_routed s t a p w)
    else deallocate_many s t a p n w

-- `expand` in the default mode, by the thread's own state.
unfoldable pub expand_local : Setup → (local p min_new_bytes : ℕ) → Process → Process × ℕ
expand_local s local p min_new_bytes w =
    let runs = runs_of s local in
    if owns (pool_setup s local) (pool_at w local) p
    then (w, s.layout.size)
    else if owner_of w.memory p == runs && owns_run (runner_at w runs) p
    then runner_expand runs p min_new_bytes w
    else (w, 0)

-- `expand`
unfoldable pub expand : Setup → ℕ → Allocator → (p min_new_bytes : ℕ) → Process → Process × ℕ
expand s t a p min_new_bytes w =
    if p == 0
    then (w, 0)
    else if is_default a.mode
    then (let local = local_state_or_null s t w in
        if local == 0 then (w, 0) else expand_local s local p min_new_bytes w)
    else if not (a.state == 0) && owns (pool_setup s a.state) (pool_at w a.state) p
    then (w, s.layout.size)
    else runner_expand (bound_runs s a) p min_new_bytes w

-- `state`, the state that the next allocation would draw from.
unfoldable pub state : Setup → ℕ → Allocator → Call ℕ
state s t a = alloc_state s t a
