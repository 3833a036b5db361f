-- ===== src/Runner/Heap/Commute.antt =====
-- Linking a run and telling the one behind it, in either order.
use allocazam.Prelude.{
  ℕ, ◌+◌, ◌%◌, ◌≤◌, ◌≡◌, refl, sym, ◌∙◌, ◌⊎◌, inl, inr, true, false, arith, ◌==◌, if◌then◌else◌,
  Bool-cases,
}
use allocazam.Memory.{Memory, write}
use allocazam.Runner.Sizes.{bin_index_for}
use allocazam.Runner.Runs.{
  Runner, run_size, link_free, next_run, mark_prev_free, next_link, prev_link,
}
use allocazam.Runner.Calls.{with_memory, mark_next}

size_same : (mem mem' : Memory) (a : ℕ) → mem' a ≡ mem a → run_size mem' a ≡ run_size mem a
unfolding run_size
size_same mem mem' a same = rw same refl

-- Linking a run and telling the one behind it do not meet.
module _ (r : Runner) (w : Memory) (c size : ℕ) (read : run_size w c ≡ size) (large : 48 ≤ size)
    (whole : size % 16 ≡ 0) (c_whole : c % 16 ≡ 0)
    (first_whole : r.bins (bin_index_for size) % 16 ≡ 0) where
  abbrev first : ℕ
  first = r.bins (bin_index_for size)

  abbrev links : Memory → Memory
  links mem =
      let linked = write (write mem (prev_link c) 0) (next_link c) first in
      if first == 0 then linked else write linked (prev_link first) c

  links-read : (mem : Memory) (a : ℕ) → a % 16 ≡ 0 → (a ≡ c) ⊎ (c + 48 ≤ a) → links mem a ≡ mem a
  links-read mem a a_whole far = ground arith

  linked-memory :
      (mem : Memory) → run_size mem c ≡ size → (link_free (with_memory r mem) c).memory ≡ links mem
  unfolding link_free
  linked-memory mem same = rw same refl

  marked-eq :
      (mem : Memory)
      → run_size mem c ≡ size
      → mark_next mem c true
        ≡ (if run_size mem (c + size) == 0 then mem else mark_prev_free mem (c + size) true)
  unfolding next_run
  marked-eq mem same = elim (Bool-cases (run_size mem (c + size) == 0)) [
    | inl none ↦ rw (same, none) refl
    | inr some_bytes ↦
        let real : (c + size == 0) ≡ false = ground arith in rw (same, some_bytes, real) refl
  ]

  commutes : (v : ℕ) → links (write w (c + size) v) ≡ write (links w) (c + size) v
  commutes v i a = pointwise a i
    where
      pointwise : (a : ℕ) → links (write w (c + size) v) a ≡ write (links w) (c + size) v a
      pointwise a = ground arith

  marks-commute : mark_next (links w) c true ≡ links (mark_next w c true)
  unfolding mark_prev_free
  marks-commute =
      let read' : run_size (links w) c ≡ size =
        size_same w (links w) c (links-read w c c_whole (inl refl)) ∙ read in
      let behind : links w (c + size) ≡ w (c + size) =
        links-read w (c + size) (omega arith) (inr (omega arith)) in
      let same = size_same w (links w) (c + size) behind in
      rw (marked-eq (links w) read', marked-eq w read, same)
        (elim (Bool-cases (run_size w (c + size) == 0)) [
          | inl none ↦ rw none refl
          | inr some_bytes ↦ rw (some_bytes, behind) (sym (commutes _))
        ])

  linked-as :
      (mem : Memory)
      → run_size mem c ≡ size
      → link_free (with_memory r mem) c ≡ with_memory (link_free (with_memory r w) c) (links mem)
  unfolding link_free
  linked-as mem same = rw (same, read) refl

  pub link-commutes :
      (let linked = link_free (with_memory r w) c in
        with_memory linked (mark_next linked.memory c true))
      ≡ link_free (with_memory r (mark_next w c true)) c
  unfolding mark_prev_free
  link-commutes =
      let read' : run_size (mark_next w c true) c ≡ size =
        rw (marked-eq w read) (elim (Bool-cases (run_size w (c + size) == 0)) [
          | inl none ↦ rw none read
          | inr some_bytes ↦ rw some_bytes (size_same w _ c (ground arith) ∙ read)
        ]) in
      rw (linked-memory w read, marks-commute) (sym (linked-as (mark_next w c true) read'))
