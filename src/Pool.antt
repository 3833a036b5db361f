-- ===== src/Pool.antt =====
-- lib/allocazam.hpp: `allocazam<T, Mode, OwnerHeaders>`, the pool of nodes over an intrusive free
-- list, with the stack on which other threads park nodes that they free.
pub mod Tally
pub mod Invariant
pub mod Drain
pub mod Grow
pub mod Fresh
pub mod Heap
pub mod Add
pub mod Allocate
pub mod Histories
pub mod Reachable
pub mod Noheap
mod Tests
use allocazam.Prelude.{
  ℕ, zero, suc, ◌+◌, ◌-◌, ◌*◌, ◌/◌, Bool, true, false, ◌&&◌, ◌||◌, not, Option, none, some, List,
  [], ◌∷◌, ◌++◌, max, ltb, leb, ◌==◌, if◌then◌else◌,
}
use allocazam.Word.{size_max, wrap, checked_mul}
use allocazam.Word.Pow2.{has_single_bit, std_align}
use allocazam.Layout.{Layout}
use allocazam.Memory.{Memory, write}
use allocazam.Exception.{
  bad_alloc, invalid_argument, Outcome, ok, throw, throw_if, or_throw, ◌>>=◌, ◌>>◌,
}
use allocazam.Chunk.{
  Chunk, NewAligned, construct, construct_external, at, contains, stamp_owner, sizeof_node,
  node_alignment, granule_for,
}

-- `memory_mode`
pub data Mode : Type 0 where
  fixed dynamic noheap : Mode

abbrev pub heap_backed : Mode → Bool
heap_backed noheap = false
heap_backed _ = true

abbrev pub fixed_like : Mode → Bool
fixed_like dynamic = false
fixed_like _ = true

-- The template's arguments, the platform's page size, and the answer of each call of the aligned
-- `operator new[]`, in order. Where the vector of the chunks cannot grow, a call counts as failed.
pub record Setup : Type 0 where
  pub layout : Layout
  pub mode : Mode
  pub headers : Bool
  pub page : ℕ
  pub news : ℕ → NewAligned

-- The pool at address `self`, with the memory that it shares with its clients, and the number of
-- calls of `operator new[]` so far.
pub record Pool : Type 0 where
  pub self : ℕ
  pub size : ℕ
  pub capacity : ℕ
  pub next_growth : ℕ
  pub page_size : ℕ
  pub nodes_per_page : ℕ
  pub alloc_align : ℕ
  pub free_head : ℕ
  pub chunks : List Chunk
  pub remote_head : ℕ
  pub memory : Memory
  pub calls : ℕ

unfoldable pub page_alloc_align : Layout → ℕ → ℕ
page_alloc_align T page_size =
    if has_single_bit page_size && ltb (node_alignment T) page_size
    then page_size
    else node_alignment T

unfoldable pub page_node_capacity : Layout → ℕ → ℕ
page_node_capacity T page_size = let n = page_size / sizeof_node T in if n == 0 then 1 else n

unfoldable pub push_free_node : Pool → ℕ → Pool
push_free_node p n = record p { memory = write p.memory n p.free_head; free_head = n }

unfoldable pub pop_free_node : Pool → Pool × ℕ
pop_free_node p =
    if p.free_head == 0
    then (p, 0)
    else (record p { free_head = p.memory p.free_head }, p.free_head)

-- The loop of `_drain_remote`, with as many rounds as it is given; `none` if they do not suffice.
unfoldable pub splice : ℕ → Pool → ℕ → Option Pool
splice zero p n = if n == 0 then some p else none
splice (suc rounds) p n = elim (n == 0) [
  | true ↦ some p
  | false ↦
      splice rounds (record (push_free_node p n) { size = wrap (p.size + size_max) }) (p.memory n)
]

-- A pool parks at most `capacity` nodes, so the loop gets as many rounds.
unfoldable pub drain_remote : Pool → Option (Pool × Bool)
drain_remote p =
    if p.remote_head == 0
    then some (p, false)
    else elim (splice p.capacity (record p { remote_head = 0 }) p.remote_head) [
      | none ↦ none
      | some q ↦ some (q, true)
    ]

-- The slots from 0 up to `n` are pushed in order.
unfoldable pub push_slots : Setup → Chunk → ℕ → Pool → Pool
push_slots s c zero p = p
push_slots s c (suc n) p = push_free_node (push_slots s c n p) (at s.headers s.layout c n)

-- The pool takes the chunk in: its owner is stamped, its slots are pushed, its capacity counted.
unfoldable pub adopt : Setup → Pool → Chunk → Memory → Pool
adopt s p c mem =
    let stamped = if s.headers then stamp_owner s.layout c p.self mem else mem in
    let q = record p { chunks = p.chunks ++ (c ∷ []); memory = stamped; calls = suc p.calls } in
    let r = push_slots s c c.count q in record r { capacity = wrap (r.capacity + c.count) }

-- `_add_chunk`; an exception leaves the pool as it was.
unfoldable pub add_chunk : Setup → Pool → ℕ → Pool × Outcome (Unit {0})
add_chunk s p slot_count =
    elim (construct s.headers s.layout (s.news p.calls) slot_count p.page_size p.alloc_align
      p.memory) [
        | throw why ↦ (record p { calls = suc p.calls }, throw why)
        | ok (c, mem) ↦ (adopt s p c mem, ok tt)
      ]

-- `_grow`; the growth step is doubled also where the new chunk cannot be had.
unfoldable pub grow : Setup → Pool → Pool × Outcome (Unit {0})
grow s p = elim (checked_mul p.next_growth 2) [
  | none ↦ (p, throw bad_alloc)
  | some doubled_growth ↦
      let q = record p { next_growth = max 1 doubled_growth } in add_chunk s q q.next_growth
]

abbrev pub counted : Pool × ℕ → Pool × Outcome ℕ
counted (p, n) = (record p { size = wrap (p.size + 1) }, ok n)

-- The rest of a step that may have thrown.
abbrev pub unless_thrown : Pool × Outcome (Unit {0}) → (Pool → Pool × Outcome ℕ) → Pool × Outcome ℕ
unless_thrown (p, throw why) next = (p, throw why)
unless_thrown (p, ok _) next = next p

-- `allocate` from its second `n == nullptr` on: fail in a fixed mode, grow in the dynamic one.
unfoldable pub or_grow : Setup → Pool → Pool × Outcome ℕ
or_grow s p =
    if fixed_like s.mode
    then (p, ok 0)
    else unless_thrown (grow s p)
        λ q. let (r, n) = pop_free_node q in if n == 0 then (r, throw bad_alloc) else counted (r, n)

-- The first chunk of a pool that was constructed lazily.
unfoldable pub or_first_chunk : Setup → Pool → Pool × Outcome ℕ
or_first_chunk s p =
    if heap_backed s.mode && p.capacity == 0 && not (p.next_growth == 0)
    then unless_thrown (add_chunk s p p.next_growth)
        (λ q. let (r, n) = pop_free_node q in if n == 0 then or_grow s r else counted (r, n))
    else or_grow s p

-- The drain of `allocate`, then another try.
unfoldable pub or_drain : Setup → Pool → Option (Pool × Outcome ℕ)
or_drain s p =
    if s.headers
    then elim (drain_remote p) [
      | none ↦ none
      | some (q, drained) ↦
          if drained
          then (let (r, n) = pop_free_node q in
              some (if n == 0 then or_first_chunk s r else counted (r, n)))
          else some (or_first_chunk s q)
    ]
    else some (or_first_chunk s p)

-- `allocate`, 0 for null; `none` only if the drain ran out of rounds.
unfoldable pub allocate : Setup → Pool → Option (Pool × Outcome ℕ)
allocate s p =
    let (q, n) = pop_free_node p in if n == 0 then or_drain s q else some (counted (q, n))

unfoldable pub deallocate : Pool → ℕ → Pool
deallocate p ptr =
    if ptr == 0 then p else record (push_free_node p ptr) { size = wrap (p.size + size_max) }

-- `remote_push`, as the one step that its exchange makes it.
unfoldable pub remote_push : Pool → ℕ → Pool
remote_push p n = record p { memory = write p.memory n p.remote_head; remote_head = n }

any_contains : Setup → List Chunk → ℕ → Bool
any_contains s [] target = false
any_contains s (c ∷ cs) target = contains s.headers s.layout c target || any_contains s cs target

unfoldable pub owns : Setup → Pool → ℕ → Bool
unfolding any_contains
owns s p ptr = not (ptr == 0) && any_contains s p.chunks ptr

unfoldable pub free_count : Pool → ℕ
free_count p = wrap (p.capacity + size_max + 1 - p.size)

-- The fields before a constructor's body runs.
abbrev pub blank : Setup → (self : ℕ) → Memory → Pool
blank s self mem = record {
  self = self;
  size = 0;
  capacity = 0;
  next_growth = 0;
  page_size = s.page;
  nodes_per_page = page_node_capacity s.layout s.page;
  alloc_align = page_alloc_align s.layout s.page;
  free_head = 0;
  chunks = [];
  remote_head = 0;
  memory = mem;
  calls = 0;
}

-- The lazy constructor: the first chunk waits for the first allocation.
unfoldable pub construct_lazy : Setup → (self pool_size : ℕ) → Memory → Outcome Pool
construct_lazy s self pool_size mem = do
  throw_if (not (has_single_bit pool_size))
      (invalid_argument "allocator buffer size must be a power of 2")
  ok (record (blank s self mem) { next_growth = pool_size })

abbrev pub or_rethrow : Pool × Outcome (Unit {0}) → Outcome Pool
or_rethrow (p, throw why) = throw why
or_rethrow (p, ok _) = ok p

-- The eager constructor.
unfoldable pub construct_eager : Setup → (self pool_size : ℕ) → Memory → Outcome Pool
construct_eager s self pool_size mem = do
  throw_if (not (has_single_bit pool_size))
      (invalid_argument "allocator buffer size must be a power of 2")
  let p = record (blank s self mem) { next_growth = pool_size }
  or_rethrow (add_chunk s p p.next_growth)

-- `_add_external_chunk`
unfoldable pub add_external_chunk : Setup → Pool → (nodes slot_count : ℕ) → Pool
add_external_chunk s p nodes slot_count =
    let c = construct_external s.layout nodes slot_count in
    let q = push_slots s c c.count (record p { chunks = c ∷ [] }) in
    record q { capacity = wrap (q.capacity + c.count) }

-- The fields that its constructor leaves at what their declarations say.
abbrev pub defaults : Setup → (self : ℕ) → Memory → Pool
defaults s self mem = record (blank s self mem) {
  page_size = 4096;
  nodes_per_page = 1;
  alloc_align = node_alignment s.layout;
}

-- The noheap constructor, over a span of the caller.
unfoldable pub construct_noheap : Setup → (self data_begin size : ℕ) → Memory → Outcome Pool
construct_noheap s self data_begin size mem = do
  throw_if (size == 0) (invalid_argument "allocator backing buffer must not be empty")
  (aligned, space) ←
      or_throw (std_align (node_alignment s.layout) (sizeof_node s.layout) data_begin size)
        (invalid_argument "allocator backing buffer cannot satisfy node alignment")
  let node_count = space / sizeof_node s.layout
  throw_if (node_count == 0) (invalid_argument "allocator backing buffer too small for one node")
  ok (add_external_chunk s (defaults s self mem) aligned node_count)
