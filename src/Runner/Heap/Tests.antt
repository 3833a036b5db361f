-- ===== src/Runner/Heap/Tests.antt =====
-- A runner over the 1024 bytes from 4096 on, with one allocation.
use allocazam.Prelude.{
  ℕ, ◌+◌, ◌-◌, ◌*◌, ◌/◌, ◌≤◌, ◌<◌, ◌≡◌, refl, sym, ap, subst, true, false, none, some, List, [],
  ◌∷◌, ◌⊎◌, arith, ◌==◌, if◌then◌else◌,
}
use Prim.Native.String.{String}
use allocazam.Exception.{invalid_argument, ok, throw}
use allocazam.Memory.{Memory}
use allocazam.Word.Pow2.{pad_of}
use allocazam.OwnedMemory.{disabled, Platform, OwnedMemory}
use allocazam.OwnedMemory.Tests.{small_platform}
use allocazam.Runner.Runs.{ChunkNode, Runner}
use allocazam.Runner.Calls.{allocate_from_free_run, deallocate_bytes, expand}
use allocazam.Runner.Chunks.{Setup, blank, construct_external, external_node, initialize_free_run}
use allocazam.Word.Pow2.{and_not, align_up_pow2}
use allocazam.Runner.Sizes.{size_field, flag, pack, set_prev_free, bin_index_for, bit_width}
use allocazam.Runner.Mask.{set_bin_nonempty, set_bin_empty}
use allocazam.Runner.Runs.{
  find_fit, link_free, unlink_free, run_size, set_header, write_footer, mark_prev_free, next_run,
  prev_is_free, is_free,
}
use allocazam.Runner.Calls.{split_run, drain_remote}
use allocazam.Runner.Outside.{outside, outside-allocate_from_free_run}
use allocazam.Runner.Heap.{Heap, IsRunner}
use allocazam.Runner.Heap.Covered.{IsCovered, smaller-IsCovered}
use allocazam.Runner.Heap.Fit.{IsFound, find_fit-IsFound}
use allocazam.Runner.Heap.Drain.{IsParked, IsDrained, drain_remote-IsDrained, renewed-IsRunner}
use allocazam.Runner.Heap.Grow.{extended-IsCovered}
use allocazam.Runner.Heap.Chunks.{IsNewChunk, extended}
use allocazam.Runner.Heap.Extended.{initialize_free_run-IsRunner}
use allocazam.Runner.Heap.External.{IsSingle, construct_external-cases, empty, empty-IsRunner}
use allocazam.Runner.Heap.Allocate.{IsTaken, allocate_from_free_run-IsTaken}
use allocazam.Runner.Heap.Deallocate.{IsFreed, deallocate_bytes-IsFreed}
use allocazam.Runner.Heap.Expand.{IsExpanded, expand-IsExpanded}

abbrev small : Setup
small = record {
  can_grow = false;
  huge = disabled;
  page = 4096;
  nodes = λ k. false;
  platforms = λ k. small_platform;
}

abbrev zeros : Memory
zeros a = 0

construct_external-cases_example :
    ((why : String) × (construct_external small 64 4104 1040 zeros ≡ throw (invalid_argument why))
      × (1040 < pad_of 16 4104 + 64))
    ⊎ ((r : Runner) × (construct_external small 64 4104 1040 zeros ≡ ok r)
        × (pad_of 16 4104 + 64 ≤ 1040)
        × IsSingle r (4104 + pad_of 16 4104) ((1040 - pad_of 16 4104) / 16 * 16 - 16))
construct_external-cases_example =
    construct_external-cases small 64 4104 1040 zeros (omega arith) (omega arith)

abbrev span : ChunkNode
span = external_node 4096 1024

abbrev before : Runner
before = record (blank small 64 zeros) { chunks = span ∷ [] }

before-IsRunner : IsRunner before empty (λ i. [])
before-IsRunner = empty-IsRunner before (λ i. refl) (λ w. refl)

new : IsNewChunk empty 4096 1024
new = record {
  aligned = omega arith;
  whole = omega arith;
  large = omega arith;
  not_null = omega arith;
  fits = omega arith;
  outside = λ x there. absurd cc;
}

abbrev one_run : Runner
one_run = initialize_free_run before span

abbrev one_free : Heap
one_free = extended before empty (λ i. []) span before-IsRunner new

one_run-IsRunner : (lists : ℕ → List ℕ) × IsRunner one_run one_free lists
one_run-IsRunner = initialize_free_run-IsRunner before empty (λ i. []) span before-IsRunner new

allocate_from_free_run-IsTaken_example :
    let (r, p) = allocate_from_free_run one_run 4096 128 in
    IsTaken one_run r one_free 4096 128 × (p ≡ 4112) × (r.memory 4104 ≡ r.self)
allocate_from_free_run-IsTaken_example =
    allocate_from_free_run-IsTaken one_run one_free one_run-IsRunner.0 4096 128 one_run-IsRunner.1
      (ground arith) (ground arith) (omega arith) (omega arith) (ground arith)

abbrev taken_run : Runner
taken_run = (allocate_from_free_run one_run 4096 128).0

taken : IsTaken one_run taken_run one_free 4096 128
taken =
    (allocate_from_free_run-IsTaken one_run one_free one_run-IsRunner.0 4096 128 one_run-IsRunner.1
      (ground arith) (ground arith) (omega arith) (omega arith) (ground arith)).0

deallocate_bytes-IsFreed_example :
    IsFreed taken_run (deallocate_bytes taken_run 4112) taken.heap 4096
deallocate_bytes-IsFreed_example =
    deallocate_bytes-IsFreed taken_run taken.heap taken.lists 4096 taken.runner taken.taken.0
      taken.taken.1 (omega (arith, taken.taken.2, taken.enough))

expand-IsExpanded_example :
    let (r, reported) = expand taken_run 4112 500 in
    IsExpanded taken_run r taken.heap 4096 500 reported
expand-IsExpanded_example =
    expand-IsExpanded taken_run taken.heap taken.lists 4096 500 taken.runner taken.taken.0
      taken.taken.1 (omega (arith, taken.taken.2, taken.enough)) (omega arith)

-- The first call for memory is answered with the bytes from 65536 on, the later ones fail.
abbrev no_platform : Platform
no_platform = record {
  linux = false;
  new_nothrow = λ bytes alignment. 0;
  mmap_hugetlb = λ bytes. none;
}

abbrev once_more : Setup
once_more = record small {
  can_grow = true;
  platforms = λ k. if k == 0 then small_platform else no_platform;
  nodes = λ k. true;
}

one_run-IsCovered : IsCovered (span ∷ []) one_free
one_run-IsCovered =
    extended-IsCovered before empty (λ i. []) span before-IsRunner new []
      (λ b (a, there, from, below). absurd cc)

find_fit-IsFound_example : (h : ℕ) × (find_fit one_run 128 ≡ some h) × IsFound one_free 128 h
unfolding initialize_free_run link_free
find_fit-IsFound_example =
    find_fit-IsFound one_run one_free one_run-IsRunner.0 128 one_run-IsRunner.1 one_run-IsCovered
      (omega arith) (omega arith)

-- The allocated run has been freed by another thread.
abbrev pushed_run : Runner
pushed_run = record taken_run { remote_head = 4112 }

pushed_run-IsRunner : IsRunner pushed_run taken.heap taken.lists
pushed_run-IsRunner = renewed-IsRunner taken_run pushed_run taken.heap taken.lists taken.runner

same_chunks : taken_run.chunks ≡ span ∷ []
unfolding initialize_free_run link_free
same_chunks = ap (λ z. z.chunks) (outside-allocate_from_free_run one_run 4096 128)

pushed_run-IsCovered : IsCovered pushed_run.chunks taken.heap
pushed_run-IsCovered =
    subst (λ z. IsCovered z taken.heap) (sym same_chunks)
      (smaller-IsCovered (span ∷ []) one_free taken.heap one_run-IsCovered taken.inside)

last_link : taken_run.memory 4112 ≡ 0
unfolding initialize_free_run link_free allocate_from_free_run split_run unlink_free run_size
    size_field set_header write_footer mark_prev_free next_run prev_is_free is_free flag pack
    set_prev_free bin_index_for align_up_pow2 and_not bit_width set_bin_nonempty set_bin_empty
last_link = refl

pushed_run-IsParked : IsParked pushed_run.memory taken.heap 4112 (4112 ∷ [])
pushed_run-IsParked = record {
  chain = (refl, omega arith, last_link);
  once = λ p. ground arith;
  held = λ p listed. (4096, taken.size, ground arith, omega (arith, taken.enough), taken.taken);
}

drain_remote-IsDrained_example :
    (q : Runner) × (drain_remote pushed_run ≡ some (q, true))
    × (outside q ≡ outside (record pushed_run { remote_head = 0 }))
    × IsDrained pushed_run.memory q taken.heap (4112 ∷ [])
drain_remote-IsDrained_example =
    drain_remote-IsDrained pushed_run taken.heap taken.lists (4112 ∷ []) pushed_run-IsRunner
      pushed_run-IsCovered pushed_run-IsParked
