-- ===== src/Suballocated.antt =====
-- lib/allocazam.hpp: the `suballocated` specialisations of `allocazam_std_state` and
-- `allocazam_std_allocator`, whose instances share the states of the threads.
pub mod Cache
pub mod Allocators
pub mod States
pub mod Shared
pub mod Routing
pub mod Calls
mod Tests
use allocazam.Prelude.{
  ℕ, ◌+◌, ◌/◌, ◌≡◌, ◌≢◌, ◌⊎◌, Bool, true, false, ◌&&◌, ◌==◌, if◌then◌else◌, Option, none, some,
}
use allocazam.Word.{size_max}
use allocazam.Layout.{Layout}
use allocazam.Memory.{Memory}
use allocazam.Exception.{Exception, Outcome, ok, throw}
use allocazam.OwnedMemory.{HugePages, disabled, enabled, Platform}
use allocazam.Chunk.{NewAligned}
use allocazam.Pool.{Mode, dynamic, heap_backed, Pool}
use allocazam.Pool
use allocazam.Runner.Runs.{Runner}
use allocazam.Runner.Chunks

-- `resource_mode`
pub data ResourceMode : Type 0 where
  default_state explicit_state runs_override : ResourceMode

abbrev pub is_default : ResourceMode → Bool
is_default default_state = true
is_default _ = false

-- The allocator's fields; a null pointer is 0.
pub record Allocator : Type 0 where
  pub state : ℕ
  pub override : ℕ
  pub mode : ResourceMode

-- `tls_run_class`
pub record Class : Type 0 where
  pub head : ℕ
  pub count : ℕ

-- The thread's `_tls_state` and the classes of its `tls_run_cache`.
pub record Thread : Type 0 where
  pub state : ℕ
  pub classes : ℕ → Class

-- The template's arguments; the page size; the distance of `runs` from the start of a state, where
-- its `pool` stands; the addresses that `new state_type` gives, in order, 0 where it throws; and
-- what the platform answers to each pool and to each runner, by its address.
pub record Setup : Type 0 where
  pub layout : Layout
  pub mode : Mode
  pub huge : HugePages
  pub page : ℕ
  pub runs_offset : ℕ
  pub state_news : ℕ → ℕ
  pub node_news : (pool : ℕ) → ℕ → NewAligned
  pub chunk_nodes : (runner : ℕ) → ℕ → Bool
  pub platforms : (runner : ℕ) → ℕ → Platform

-- What the threads share: the memory, the pools, runners and links of the states by their
-- addresses, and the head of the registry; beside it what each thread has for itself, and the
-- number of calls of `new state_type` so far. The memory of the process stands for that of every
-- pool and runner.
pub record Process : Type 0 where
  pub memory : Memory
  pub pools : ℕ → Pool
  pub runners : ℕ → Runner
  pub registry_next : ℕ → ℕ
  pub registry : ℕ
  pub threads : ℕ → Thread
  pub states_made : ℕ

abbrev pub put {ℓ} : {A : Type ℓ} → (ℕ → A) → ℕ → A → ℕ → A
put f a value b = if a == b then value else f b

abbrev pub is_dynamic : Mode → Bool
is_dynamic dynamic = true
is_dynamic _ = false

abbrev pub is_disabled : HugePages → Bool
is_disabled disabled = true
is_disabled enabled = false

-- `heap_backed_mode<Mode> && Huge == huge_pages::disabled`
abbrev pub has_thread_states : Setup → Bool
has_thread_states s = heap_backed s.mode && is_disabled s.huge

abbrev pub pool_setup : Setup → ℕ → allocazam.Pool.Setup
pool_setup s q = record {
  layout = s.layout;
  mode = s.mode;
  headers = heap_backed s.mode;
  page = s.page;
  news = s.node_news q;
}

abbrev pub runner_setup : Setup → ℕ → allocazam.Runner.Chunks.Setup
runner_setup s r = record {
  can_grow = is_dynamic s.mode;
  huge = s.huge;
  page = s.page;
  nodes = s.chunk_nodes r;
  platforms = s.platforms r;
}

-- `std::addressof(state->runs)`
abbrev pub runs_of : Setup → ℕ → ℕ
runs_of s state = state + s.runs_offset

unfoldable pub max_size : Layout → ℕ
max_size T = size_max / T.size

-- The constructors: by default, from a state, and from an allocator of another value type, with and
-- without a state.
unfoldable pub construct_default : Allocator
construct_default = record { state = 0; override = 0; mode = default_state }

unfoldable pub construct_explicit : ℕ → Allocator
construct_explicit state = record { state = state; override = 0; mode = explicit_state }

-- `_runs_ptr` of an allocator that is not in the default mode.
unfoldable pub bound_runs : Setup → Allocator → ℕ
bound_runs s a = if a.state == 0 then a.override else runs_of s a.state

-- `s` is the setup of the other's value type.
unfoldable pub construct_rebound : Setup → Allocator → Allocator
construct_rebound s other = elim other.mode [
  | default_state ↦ record { state = 0; override = 0; mode = default_state }
  | _ ↦ record { state = 0; override = bound_runs s other; mode = runs_override }
]

unfoldable pub construct_rebound_with : Allocator → ℕ → Allocator
construct_rebound_with other state = record { state = state; override = 0; mode = explicit_state }

-- `operator==`
unfoldable pub equals : Allocator → Allocator → Bool
equals lhs rhs = lhs.state == rhs.state && lhs.override == rhs.override

-- `_has_allocation_resource`
unfoldable pub has_allocation_resource : Allocator → Bool
has_allocation_resource a = elim a.mode [
  | default_state ↦ true
  | runs_override ↦ if a.override == 0 then false else true
  | explicit_state ↦ if a.state == 0 then false else true
]

-- A call of a process: `none` only if a loop ran out of rounds.
abbrev pub Call : Type 0 → Type 0
Call R = Process → Option (Process × Outcome R)

module _ {R S : Type 0} where
  abbrev pub bind_result :
      Option (Process × Outcome R) → (R → Call S) → Option (Process × Outcome S)
  bind_result none next = none
  bind_result (some (w, throw why)) next = some (w, throw why)
  bind_result (some (w, ok r)) next = next r w

  infixl 5 ◌>>=◌
  abbrev pub ◌>>=◌ : Call R → (R → Call S) → Call S
  (call >>= next) w = bind_result (call w) next

infixl 5 ◌>>◌
abbrev pub ◌>>◌ : {S : Type 0} → Call (Unit {0}) → Call S → Call S
first >> second = first >>= λ done. second

abbrev pub return : {R : Type 0} → R → Call R
return r w = some (w, ok r)

abbrev pub fail : {R : Type 0} → Exception → Call R
fail why w = some (w, throw why)

abbrev pub modify : (Process → Process) → Call (Unit {0})
modify f w = some (f w, ok tt)
