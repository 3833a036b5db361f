-- ===== src/Runner/Heap/Free.antt =====
-- The end of `deallocate_bytes`: the run that is being changed becomes free.
use native.Mathlib.Decide.{ℕ_discrete}
use allocazam.Prelude.{
  ℕ, ◌+◌, ◌%◌, ◌-◌, ◌≤◌, ◌<◌, ◌≡◌, ◌≢◌, refl, List, Bool, true, false, arith, ◌==◌, ==_self,
  if◌then◌else◌,
}
use allocazam.Word.{size_max}
use allocazam.Memory.{Memory, write}
use allocazam.Pool.Tally.{tally}
use allocazam.Runner.Sizes.{pack, set_prev_free}
use allocazam.Runner.Sizes.Word.{fields-pack}
use allocazam.Runner.Runs.{
  Runner, run_size, next_link, prev_link, set_header, write_footer, mark_prev_free, next_run,
}
use allocazam.Runner.Runs.Listed.{Linked-frame}
use allocazam.Runner.Runs.Bins.{IsListed}
use allocazam.Runner.Calls.{with_memory, mark_next}
use allocazam.Runner.Heap.{header-fields}

-- The bins do not depend on words that are no links.
pub listed-frame :
    (r : Runner) (mem : Memory) (lists : ℕ → List ℕ)
    → ((i x : ℕ)
        → 0 < tally x (lists i)
        → (mem (next_link x) ≡ r.memory (next_link x))
          × (mem (prev_link x) ≡ r.memory (prev_link x)))
    → IsListed r lists
    → IsListed (with_memory r mem) lists
listed-frame r mem lists same is = record {
  linked = λ i. Linked-frame r.memory mem 0 (r.bins i) (lists i) (same i) (is.linked i);
  once = is.once;
  apart = is.apart;
  aligned = is.aligned;
  mask = is.mask;
  marked = is.marked;
}

-- What `_set_prev_free` makes of the header behind a run, if that is no epilogue.
pub mark_next-words :
    (mem : Memory) (h size n_size : ℕ) (n_free n_before flag : Bool)
    → run_size mem h ≡ size
    → mem (h + size) ≡ pack n_size n_free n_before
    → n_size % 16 ≡ 0
    → n_size + 3 ≤ size_max
    → h + size ≢ 0
    → (mark_next mem h flag (h + size)
        ≡ pack n_size n_free (if n_size == 0 then n_before else flag))
      × ((b : ℕ) → b ≢ h + size → mark_next mem h flag b ≡ mem b)
unfolding next_run mark_prev_free
mark_next-words mem h size n_size n_free n_before flag e word whole fits real =
    let f = header-fields mem (h + size) n_size n_free n_before word whole fits in
    let set_flag : set_prev_free (mem (h + size)) flag ≡ pack n_size n_free flag =
      rw word (fields-pack n_size n_free n_before flag (omega arith) fits).3 in
    elim (ℕ_discrete n_size 0) [
      | yes none ↦
          let test : (n_size == 0) ≡ true = ground arith in rw (e, f.0, test) (word, λ b d. refl)
      | no some_bytes ↦
          let test : (n_size == 0) ≡ false = ground arith in
          let test' : (h + size == 0) ≡ false = ground arith in
          rw (e, f.0, test, test', ==_self (h + size)) (set_flag, λ b d. ground arith)
    ]

-- A header and the footer that is written from it.
pub headed-words :
    (mem : Memory) (h size : ℕ) (before : Bool)
    → size % 16 ≡ 0
    → 48 ≤ size
    → size + 3 ≤ size_max
    → let written = write_footer (set_header mem h size true before) h in
      (written h ≡ pack size true before)
      × (written (h + size - 8) ≡ size)
      × ((b : ℕ) → b ≢ h → b ≢ h + size - 8 → written b ≡ mem b)
unfolding write_footer set_header
headed-words mem h size before whole large fits =
    let header : write mem h (pack size true before) h ≡ pack size true before =
      rw (==_self h) refl in
    let read =
      (header-fields (write mem h (pack size true before)) h size true before header whole
        fits).0 in
    let apart : (h + size - 8 == h) ≡ false = ground arith in
    rw read (rw apart header, rw (==_self (h + size - 8)) refl, λ b d d'. ground arith)
