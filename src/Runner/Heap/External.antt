-- ===== src/Runner/Heap/External.antt =====
-- The runner over a span of the caller.
use Prim.Native.String.{String}
use native.Mathlib.Decide.{dec_le}
use allocazam.Prelude.{
  ℕ, ◌+◌, ◌-◌, ◌*◌, ◌/◌, ◌%◌, ◌≤◌, ◌<◌, ◌≡◌, ◌≢◌, refl, List, [], ◌∷◌, ◌⊎◌, inl, inr, true, false,
  ltb, leb, arith, ◌==◌, Bool-cases,
}
use allocazam.Word.{size_mod}
use allocazam.Word.Pow2.{std_align-eq, pad_of, pad_of-mod}
use allocazam.Memory.{Memory}
use allocazam.Exception.{invalid_argument, ok, throw}
use allocazam.Runner.Runs.{Runner, ChunkNode}
use allocazam.Runner.Mask.Digits.{digit-none}
use allocazam.Runner.Chunks.{Setup, blank, construct_external, external_node, initialize_free_run}
use allocazam.Runner.Heap.{Heap, IsRunner}
use allocazam.Runner.Heap.Chunks.{IsNewChunk, extended}
use allocazam.Runner.Heap.Extended.{initialize_free_run-IsRunner}

abbrev pub empty : Heap
empty = record { there = λ h. false; size = λ h. 0; free = λ h. false; before = λ h. false }

-- A runner without chunks.
pub empty-IsRunner :
    (r : Runner)
    → ((i : ℕ) → r.bins i ≡ 0)
    → ((w : ℕ) → r.bin_nonempty_mask w ≡ 0)
    → IsRunner r empty (λ i. [])
empty-IsRunner r bins mask = record {
  tiled = record {
    word = λ h there. absurd cc;
    aligned = λ h there. absurd cc;
    sized = λ h there. absurd cc;
    last = λ h there. absurd cc;
    inside = λ h there. absurd cc;
    next = λ h there. absurd cc;
    known = λ h there. absurd cc;
    prior = λ h there. absurd cc;
    apart = λ h k there. absurd cc;
    alone = λ h there. absurd cc;
    footer = λ h there. absurd cc;
  };
  listed = record {
    linked = bins;
    once = λ i a. omega arith;
    apart = λ i j a h. absurd (omega arith);
    aligned = λ i a h. absurd (omega arith);
    mask = λ w. rw (mask w) (omega arith);
    marked = λ i. rw (bins i, mask (i / 64)) (digit-none (i % 64));
  };
  sound = λ i a h. absurd (omega arith);
  complete = λ a there. absurd cc;
}

-- A runner whose heap is one free run, which starts there and has that many bytes.
pub record IsSingle (r : Runner) (start bytes : ℕ) : Type 0 where
  pub heap : Heap
  pub lists : ℕ → List ℕ
  pub runner : IsRunner r heap lists
  pub there : heap.there start ≡ true
  pub free : heap.free start ≡ true
  pub size : heap.size start ≡ bytes
  pub only : (a size : ℕ) → heap.there a ≡ true → a ≢ start → heap.size a ≡ 0

-- Over a span of the caller inside the address space, the constructor gives a runner whose only run
-- is free, starts behind the padding and holds all of the span but the epilogue, rounded down; or
-- an exception leaves it, exactly where the padding leaves less than the smallest chunk.
pub construct_external-cases :
    (s : Setup) (self begin size : ℕ) (mem : Memory)
    → begin ≢ 0
    → begin + size < size_mod
    → let pad = pad_of 16 begin in
      ((why : String) × (construct_external s self begin size mem ≡ throw (invalid_argument why))
        × (size < pad + 64))
      ⊎ ((r : Runner) × (construct_external s self begin size mem ≡ ok r)
          × (pad + 64 ≤ size)
          × IsSingle r (begin + pad) ((size - pad) / 16 * 16 - 16))
unfolding construct_external
construct_external-cases s self begin size mem real fits =
    let pad = pad_of 16 begin in
    let pad_whole = pad_of-mod 16 begin (omega arith) in
    elim (dec_le (pad + 64) size) [
      | no small ↦ inl (elim (Bool-cases (size == 0)) [
        | inl e ↦ ("runner::allocator backing must not be empty", rw e refl, omega arith)
        | inr e ↦ (
          "runner::allocator backing alignment is insufficient",
          ground (arith, std_align-eq 16 64 begin size),
          omega arith,
        )
      ])
      | yes room ↦
          let space = size - pad in
          let node : ChunkNode = external_node (begin + pad) (space - space % 16) in
          let before : Runner = record (blank s self mem) { chunks = node ∷ [] } in
          let base = empty-IsRunner before (λ i. refl) (λ w. refl) in
          let new : IsNewChunk empty node.begin node.bytes = record {
            aligned = pad_whole;
            whole = omega arith;
            large = omega arith;
            not_null = omega arith;
            fits = omega arith;
            outside = λ x there. absurd cc;
          } in
          let (lists, runner) = initialize_free_run-IsRunner before empty (λ i. []) node base new in
          let some_bytes : (size == 0) ≡ false = ground arith in
          let test : leb (pad + 64) size ≡ true = ground arith in
          let test' : ltb (space - space % 16) 64 ≡ false = ground arith in
          inr (
            initialize_free_run before node,
            rw (some_bytes, std_align-eq 16 64 begin size, test, test') refl,
            room,
            record {
              heap = extended before empty (λ i. []) node base new;
              lists = lists;
              runner = runner;
              there = ground arith;
              free = ground arith;
              size = ground arith;
              only = λ a bytes there d. ground arith;
            },
          )
    ]
