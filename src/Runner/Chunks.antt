-- ===== src/Runner/Chunks.antt =====
-- lib/runner.hpp: the runner's chunks, its constructors, and `allocate_bytes` over all of them.
use allocazam.Prelude.{
  ℕ, suc, ◌+◌, ◌-◌, ◌%◌, Bool, true, false, Option, none, some, max, ltb, ◌==◌, not, ◌&&◌,
  if◌then◌else◌, List, [], ◌∷◌,
}
use allocazam.Word.{size_max, checked_add, checked_mul, checked_round_to_multiple_of}
use allocazam.Word.Pow2.{std_align}
use allocazam.Memory.{Memory, write}
use allocazam.Exception.{
  bad_alloc, invalid_argument, Outcome, ok, throw, throw_if, or_throw, ◌>>=◌, ◌>>◌,
}
use allocazam.OwnedMemory.{
  HugePages, enabled, disabled, explicit_huge_page_bytes, Platform, value, unexpected, OwnedMemory,
  allocate_owned_memory, Freed, release_owned_memory,
}
use allocazam.Runner.Sizes.{run_alignment, min_free_run_size, normalized_run_bytes_for_payload}
use allocazam.Runner.Runs.{
  ChunkNode, Runner, owner_word, set_header, write_footer, link_free, find_fit,
}
use allocazam.Runner.Calls.{allocate_from_free_run, drain_remote}

-- `sizeof(run_header)`, behind the last run.
abbrev pub epilogue_size : ℕ
epilogue_size = 16

abbrev pub min_chunk_bytes : ℕ
min_chunk_bytes = min_free_run_size + epilogue_size

-- The template's arguments and the platform's page size, and for each call for a chunk whether
-- `operator new` gives its node, and what the platform answers for its memory.
pub record Setup : Type 0 where
  pub can_grow : Bool
  pub huge : HugePages
  pub page : ℕ
  pub nodes : ℕ → Bool
  pub platforms : ℕ → Platform

unfoldable pub owned_chunk_granularity : HugePages → ℕ → ℕ
owned_chunk_granularity enabled page_size = explicit_huge_page_bytes
owned_chunk_granularity disabled page_size = page_size

unfoldable pub owned_chunk_bytes_for : HugePages → (page_size bytes : ℕ) → Outcome ℕ
owned_chunk_bytes_for huge page_size bytes =
    or_throw
      (checked_round_to_multiple_of (max bytes min_chunk_bytes)
        (owned_chunk_granularity huge page_size))
      bad_alloc

unfoldable pub initialize_free_run : Runner → ChunkNode → Runner
initialize_free_run r c =
    let run_bytes = c.bytes - epilogue_size in
    let headed = write_footer (set_header r.memory c.begin run_bytes true false) c.begin in
    let linked = link_free (record r { memory = headed }) c.begin in
    let epilogue = c.begin + run_bytes in
    record linked {
      memory = write (set_header linked.memory epilogue 0 false true) (owner_word epilogue) 0;
    }

abbrev pub owned_node : OwnedMemory → ChunkNode
owned_node m = record {
  begin = m.base;
  bytes = m.bytes;
  mapping_base = m.base;
  mapping_bytes = m.bytes;
}

abbrev pub external_node : (begin bytes : ℕ) → ChunkNode
external_node begin bytes = record {
  begin = begin;
  bytes = bytes;
  mapping_base = 0;
  mapping_bytes = 0;
}

-- `_add_owned_chunk`; an exception leaves the runner as it was.
unfoldable pub add_owned_chunk : Setup → Runner → ℕ → Runner × Outcome ℕ
add_owned_chunk s r bytes =
    let called = record r { calls = suc r.calls } in
    elim (owned_chunk_bytes_for s.huge r.page_size bytes) [
      | throw why ↦ (r, throw why)
      | ok size ↦
          if not (s.nodes r.calls)
          then (called, throw bad_alloc)
          else elim (allocate_owned_memory s.huge (s.platforms r.calls) size run_alignment) [
            | unexpected _ ↦ (called, throw bad_alloc)
            | value m ↦
                let c = owned_node m in
                (initialize_free_run (record called { chunks = c ∷ r.chunks }) c, ok size)
          ]
    ]

-- The growth after a chunk of that size.
abbrev pub next_growth_after : ℕ → ℕ
next_growth_after size = elim (checked_mul size 2) [
  | none ↦ max size_max size
  | some doubled_growth ↦ max doubled_growth size
]

abbrev pub set_growth : Runner × Outcome ℕ → (ℕ → ℕ) → Runner × Outcome (Unit {0})
set_growth (r, throw why) next = (r, throw why)
set_growth (r, ok size) next = (record r { next_growth = next size }, ok tt)

unfoldable pub grow_for : Setup → Runner → ℕ → Runner × Outcome (Unit {0})
grow_for s r needed = elim (checked_add needed min_chunk_bytes) [
  | none ↦ (r, throw bad_alloc)
  | some needed_with_overhead ↦
      set_growth (add_owned_chunk s r (max r.next_growth needed_with_overhead)) next_growth_after
]

-- The first chunk of a runner that was constructed lazily.
unfoldable pub add_deferred : Setup → Runner → Runner × Outcome (Unit {0})
add_deferred s r =
    let (q, result) = set_growth (add_owned_chunk s r r.deferred_bytes) (λ size. size) in
    elim result [ throw why ↦ (q, throw why) | ok _ ↦ (record q { deferred_bytes = 0 }, ok tt) ]

-- The search again, after a step that may have thrown.
abbrev pub then_find :
    Runner × Outcome (Unit {0})
    → ℕ
    → (Runner → ℕ → Option (Runner × Outcome ℕ))
    → Option (Runner × Outcome ℕ)
then_find (r, throw why) needed next = some (r, throw why)
then_find (r, ok _) needed next = elim (find_fit r needed) [ none ↦ none | some h ↦ next r h ]

-- The end of `allocate_bytes`, where `h` is 0 if nothing was found.
unfoldable pub finish : (needed : ℕ) → Runner → ℕ → Option (Runner × Outcome ℕ)
finish needed r h =
    if h == 0
    then some (r, ok 0)
    else (let (q, p) = allocate_from_free_run r h needed in some (q, ok p))

unfoldable pub or_grow : Setup → (needed : ℕ) → Runner → ℕ → Option (Runner × Outcome ℕ)
or_grow s needed r h =
    if (h == 0) && s.can_grow
    then then_find (grow_for s r needed) needed (finish needed)
    else finish needed r h

unfoldable pub or_deferred : Setup → (needed : ℕ) → Runner → ℕ → Option (Runner × Outcome ℕ)
or_deferred s needed r h =
    if (h == 0) && not (r.deferred_bytes == 0)
    then then_find (add_deferred s r) needed (or_grow s needed)
    else or_grow s needed r h

unfoldable pub or_drain : Setup → (needed : ℕ) → Runner → ℕ → Option (Runner × Outcome ℕ)
or_drain s needed r h =
    if h == 0
    then elim (drain_remote r) [
      | none ↦ none
      | some (q, drained) ↦
          if drained
          then then_find (q, ok tt) needed (or_deferred s needed)
          else or_deferred s needed q h
    ]
    else or_deferred s needed r h

-- `allocate_bytes`, 0 for null; `none` only if a loop ran out of rounds.
unfoldable pub allocate_bytes : Setup → Runner → (bytes alignment : ℕ) → Option (Runner × Outcome ℕ)
allocate_bytes s r bytes alignment =
    if ltb run_alignment alignment
    then some (r, ok 0)
    else elim (normalized_run_bytes_for_payload (if bytes == 0 then 1 else bytes)) [
      | none ↦ some (r, ok 0)
      | some needed ↦ then_find (r, ok tt) needed (or_drain s needed)
    ]

-- The fields before a constructor's body runs.
abbrev pub blank : Setup → (self : ℕ) → Memory → Runner
blank s self mem = record {
  self = self;
  bins = λ i. 0;
  bin_nonempty_mask = λ w. 0;
  chunks = [];
  page_size = s.page;
  next_growth = 0;
  deferred_bytes = 0;
  remote_head = 0;
  memory = mem;
  calls = 0;
}

abbrev or_rethrow : Runner × Outcome (Unit {0}) → Outcome Runner
or_rethrow (r, throw why) = throw why
or_rethrow (r, ok _) = ok r

-- The eager, the lazy and the external constructor.
unfoldable pub construct_eager : Setup → (self initial_bytes : ℕ) → Memory → Outcome Runner
construct_eager s self initial_bytes mem = or_rethrow (
    set_growth
      (add_owned_chunk s (record (blank s self mem) { next_growth = max initial_bytes 65536 })
        initial_bytes)
      (λ size. size))

unfoldable pub construct_lazy : Setup → (self initial_bytes : ℕ) → Memory → Runner
construct_lazy s self initial_bytes mem = record (blank s self mem) {
  next_growth = max initial_bytes 65536;
  deferred_bytes = max initial_bytes 1;
}

unfoldable pub construct_external : Setup → (self begin size : ℕ) → Memory → Outcome Runner
construct_external s self begin size mem = do
  throw_if (size == 0) (invalid_argument "runner::allocator backing must not be empty")
  (aligned, space) ←
      or_throw (std_align run_alignment min_chunk_bytes begin size)
        (invalid_argument "runner::allocator backing alignment is insufficient")
  let chunk_bytes = space - space % run_alignment
  throw_if (ltb chunk_bytes min_chunk_bytes)
      (invalid_argument "runner::allocator backing too small")
  let c = external_node aligned chunk_bytes
  ok (initialize_free_run (record (blank s self mem) { chunks = c ∷ [] }) c)

abbrev mapping_alignment : HugePages → ℕ
mapping_alignment enabled = explicit_huge_page_bytes
mapping_alignment disabled = run_alignment

-- `_release_owned_chunks`, with the calls that give the memory back.
unfoldable pub release_owned_chunks : Setup → (env : Platform) → List ChunkNode → List Freed
release_owned_chunks s env [] = []
release_owned_chunks s env (c ∷ cs) =
    let rest = release_owned_chunks s env cs in
    let alignment = mapping_alignment s.huge in
    if c.mapping_base == 0
    then rest
    else release_owned_memory s.huge env
        (record { base = c.mapping_base; bytes = c.mapping_bytes; alignment = alignment })
      ∷ rest
