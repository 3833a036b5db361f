-- ===== src/Pool/Drain.antt =====
-- `_drain_remote` takes every parked node back, and its loop ends.
use allocazam.Prelude.{
  ℕ, zero, suc, ◌+◌, ◌≤◌, ◌≡◌, refl, subst, sym, ◌∙◌, List, [], ◌∷◌, false, arith, ◌==◌, length,
  some, not,
}
use allocazam.Word.{size_max, wrap}
use allocazam.Pool.{Pool, push_free_node, splice, drain_remote}
use allocazam.Pool.Tally.{tally, Chain-write, Chain-cons}
use allocazam.Pool.Invariant.{IsPool, same-IsPool}

-- The parked nodes come onto the free list one by one.
abbrev pub onto : List ℕ → List ℕ → List ℕ
onto [] fs = fs
onto (q ∷ qs) fs = onto qs (q ∷ fs)

-- One that is put onto a list stays on it.
pub onto-cons :
    (ns : List ℕ) (n : ℕ) (fs : List ℕ) → (m : ℕ) × (rest : List ℕ) × (onto ns (n ∷ fs) ≡ m ∷ rest)
onto-cons [] n fs = (n, fs, refl)
onto-cons (k ∷ ns) n fs = onto-cons ns k (n ∷ fs)

-- The fields that a drain leaves as they are.
abbrev pub Kept : Pool → Pool → Type 0
Kept p q =
    (q.capacity ≡ p.capacity)
    × (q.chunks ≡ p.chunks)
    × (q.page_size ≡ p.page_size)
    × (q.next_growth ≡ p.next_growth)
    × (q.calls ≡ p.calls)

-- The pool inside the loop, which has the parked nodes left at `n`.
abbrev at_node : Pool → ℕ → Pool
at_node p n = record p { remote_head = n }

abbrev splice_one : Pool → ℕ → Pool
splice_one p n = record (push_free_node p n) { size = wrap (p.size + size_max) }

splice_step :
    (rounds : ℕ) (p : Pool) (n : ℕ)
    → (n == 0) ≡ false
    → splice (suc rounds) p n ≡ splice rounds (splice_one p n) (p.memory n)
unfolding splice
splice_step rounds p n real = rw (real, splice)

module _ {live slots : List ℕ} where
  splice_one-IsPool :
      (p : Pool) (q : ℕ) (qs fs : List ℕ)
      → IsPool (at_node p q) fs (q ∷ qs) live slots
      → IsPool (at_node (splice_one p q) (p.memory q)) (q ∷ fs) qs live slots
  unfolding push_free_node
  splice_one-IsPool p q qs fs is =
      let here = is.tallied q in
      let single = is.once q in
      let no_free : tally q fs ≡ 0 = ground (arith, here, single) in
      let no_parked : tally q qs ≡ 0 = ground (arith, here, single) in
      record {
        free_chain = Chain-cons p.memory q p.free_head fs is.parked_chain.1 no_free is.free_chain;
        parked_chain =
            Chain-write p.memory q p.free_head (p.memory q) qs no_parked is.parked_chain.2;
        tallied = λ a. omega (arith, is.tallied a);
        once = is.once;
        no_null = is.no_null;
        numbered = omega (arith, is.numbered);
        sized = omega (arith, is.sized, is.numbered, is.bounded);
        total = is.total;
        bounded = is.bounded;
      }

  settle :
      (p : Pool) (n : ℕ) (fs : List ℕ)
      → p.remote_head ≡ 0
      → IsPool (at_node p n) fs [] live slots
      → IsPool p fs [] live slots
  settle p n fs none_left is =
      same-IsPool {p = at_node p n} refl refl (none_left ∙ sym is.parked_chain) refl refl is

  splice-IsPool :
      (rounds : ℕ) (p : Pool) (n : ℕ) (qs fs : List ℕ)
      → p.remote_head ≡ 0
      → length qs ≤ rounds
      → IsPool (at_node p n) fs qs live slots
      → (q : Pool) × (splice rounds p n ≡ some q) × Kept p q × IsPool q (onto qs fs) [] live slots
  unfolding splice push_free_node
  splice-IsPool zero p n [] fs none_left few is =
      (p, rw is.parked_chain, (refl, refl, refl, refl, refl), settle p n fs none_left is)
  splice-IsPool (suc rounds) p n [] fs none_left few is =
      (p, rw is.parked_chain, (refl, refl, refl, refl, refl), settle p n fs none_left is)
  splice-IsPool zero p n (q ∷ qs) fs none_left few is = absurd (omega arith)
  splice-IsPool (suc rounds) p n (q ∷ qs) fs none_left few is =
      let real : (q == 0) ≡ false = ground (arith, is.parked_chain.1) in
      let first = is.parked_chain.0 in
      let (x, done, kept, after) =
        splice-IsPool rounds (splice_one p q) (p.memory q) qs (q ∷ fs) none_left (omega arith) (
          splice_one-IsPool p q qs fs
            (subst (λ m. IsPool (at_node p m) fs (q ∷ qs) live slots) first is)) in
      (x, rw (first, splice_step rounds p q real) done, kept, after)

-- On a pool with the given nodes, draining ends within its rounds, says whether any node was
-- parked, and frees all that were: none stays parked, and the live
-- ones, the chunks and the capacity are as before.
pub drain-IsPool :
    (p : Pool) (frees parked live slots : List ℕ)
    → IsPool p frees parked live slots
    → (q : Pool) × (drain_remote p ≡ some (q, not (length parked == 0)))
      × Kept p q
      × IsPool q (onto parked frees) [] live slots
unfolding drain_remote
drain-IsPool p frees [] live slots is = (p, rw is.parked_chain, (refl, refl, refl, refl, refl), is)
drain-IsPool p frees (n ∷ ns) live slots is =
    let real : (p.remote_head == 0) ≡ false = ground (arith, is.parked_chain) in
    let (q, done, kept, after) =
      splice-IsPool p.capacity (at_node p 0) p.remote_head (n ∷ ns) frees refl
        (omega (arith, is.numbered, is.total)) is in
    (q, rw (real, done) (ground arith), kept, after)
