-- ===== src/Pool/Allocate.antt =====
-- `allocate` of the pool with headers, on every branch.
use allocazam.Prelude.{
  ℕ, ◌≡◌, ◌≢◌, refl, ◌∙◌, List, [], ◌∷◌, ◌++◌, Bool, true, false, ◌⊎◌, ◌&&◌, not, inl, inr, arith,
  ◌==◌, if◌then◌else◌, length, some, Bool-cases,
}
use allocazam.Exception.{Exception, Outcome, ok, throw}
use allocazam.Pool.{
  Setup, Pool, fixed_like, heap_backed, pop_free_node, counted, or_grow, or_first_chunk, or_drain,
  allocate, drain_remote,
}
use allocazam.Pool.Tally.{tally}
use allocazam.Pool.Invariant.{pop-nil, pop-cons, take-IsPool}
use allocazam.Pool.Heap.{IsHeap, same-IsGrown}
use allocazam.Pool.Add.{IsSound, add_chunk-cases, grow-cases}
use allocazam.Pool.Drain.{onto-cons, drain-IsPool}

-- How a call of `allocate` on a pool with these live nodes and slots can end: it gives a node that
-- was not live, and counts it; in a fixed mode it gives null where every slot is live; or an
-- exception leaves it where every slot is live, and the pool's lists stay as they were.
abbrev pub Answer : Setup → (live slots : List ℕ) → Pool × Outcome ℕ → Type 0
Answer s live slots (q, r) =
    ((n : ℕ) × (frees : List ℕ) × (parked : List ℕ) × (more : List ℕ) × (r ≡ ok n)
      × (n ≢ 0)
      × (tally n live ≡ 0)
      × IsSound s q frees parked (n ∷ live) (more ++ slots))
    ⊎ ((r ≡ ok 0) × (fixed_like s.mode ≡ true) × IsSound s q [] [] live slots)
    ⊎ ((why : Exception) × (r ≡ throw why) × IsSound s q [] [] live slots)

module _ (s : Setup) {parked live slots : List ℕ} where
  -- A pool with a free node gives it.
  pub hit :
      (p : Pool) (n : ℕ) (fs : List ℕ)
      → IsSound s p (n ∷ fs) parked live slots
      → (pop_free_node p ≡ (record p { free_head = p.memory n }, n))
        × ((n == 0) ≡ false)
        × (n ≢ 0)
        × (tally n live ≡ 0)
        × IsSound s (counted (record p { free_head = p.memory n }, n)).0 fs parked (n ∷ live) slots
  hit p n fs sound = (
    pop-cons n fs sound.pool,
    ground (arith, sound.pool.free_chain.1),
    sound.pool.free_chain.1,
    ground (arith, sound.pool.tallied n, sound.pool.once n),
    record { pool = take-IsPool n fs sound.pool; grown = same-IsGrown refl refl refl sound.grown },
  )

if_true {ℓ} : {R : Type ℓ} {b : Bool} {x : R} (y : R) → b ≡ true → (if b then x else y) ≡ x
if_true y holds = rw holds refl

drain_remote-idle : (p : Pool) → p.remote_head ≡ 0 → drain_remote p ≡ some (p, false)
unfolding drain_remote
drain_remote-idle p idle = rw idle refl

module _ (s : Setup) (heap : IsHeap s) (on : s.headers ≡ true) {live slots : List ℕ} where
  or_grow-Answer : (p : Pool) → IsSound s p [] [] live slots → Answer s live slots (or_grow s p)
  unfolding or_grow
  or_grow-Answer p sound = elim (Bool-cases (fixed_like s.mode)) [
    | inl holds ↦ rw holds (inr (inl (refl, refl, sound)))
    | inr fails ↦ elim (grow-cases s p heap on sound) [
      | inl (why, q, e, after) ↦ rw (fails, e) (inr (inr (why, refl, after)))
      | inr ([], q, e, count, after) ↦ absurd (omega arith)
      | inr (n ∷ more, q, e, count, after) ↦
          let (popped, real, ne, new, taken) = hit s q n (more ++ []) after in
          rw (fails, e, popped, real) (inl (n, more ++ [], [], n ∷ more, refl, ne, new, taken))
    ]
  ]

  or_first_chunk-Answer :
      (p : Pool) → IsSound s p [] [] live slots → Answer s live slots (or_first_chunk s p)
  unfolding or_first_chunk
  or_first_chunk-Answer p sound =
      elim (Bool-cases (heap_backed s.mode && p.capacity == 0 && not (p.next_growth == 0))) [
        | inr fails ↦ rw fails (or_grow-Answer p sound)
        | inl holds ↦ elim (add_chunk-cases s p heap on p.next_growth sound.grown.growth sound) [
          | inl (why, e, after) ↦ rw (holds, e) (inr (inr (why, refl, after)))
          | inr ([], q, e, count, added, after) ↦ absurd (ground (arith, count))
          | inr (n ∷ more, q, e, count, added, after) ↦
              let (popped, real, ne, new, taken) = hit s q n (more ++ []) after in
              rw (holds, e, popped, real) (inl (n, more ++ [], [], n ∷ more, refl, ne, new, taken))
        ]
      ]

  -- What is parked is drained first.
  or_drain-Answer :
      (p : Pool) (parked : List ℕ)
      → IsSound s p [] parked live slots
      → (r : Pool × Outcome ℕ) × (or_drain s p ≡ some r) × Answer s live slots r
  unfolding or_drain
  or_drain-Answer p [] sound =
      let idle : drain_remote p ≡ some (p, false) = drain_remote-idle p sound.pool.parked_chain in
      (or_first_chunk s p, if_true _ on ∙ rw idle refl, or_first_chunk-Answer p sound)
  or_drain-Answer p (n ∷ ns) sound =
      let (q, e, kept, is) = drain-IsPool p [] (n ∷ ns) live slots sound.pool in
      let some_parked : not (length (n ∷ ns) == 0) ≡ true = ground arith in
      let (m, rest, first) = onto-cons ns n [] in
      let drained : IsSound s q (m ∷ rest) [] live slots = record {
        pool = rw first at is;
        grown = same-IsGrown kept.2 kept.3 kept.4 sound.grown;
      } in
      let (popped, real, ne, new, taken) = hit s q m rest drained in
      (
        counted (record q { free_head = q.memory m }, m),
        if_true _ on ∙ rw (e, some_parked, popped, real) refl,
        inl (m, rest, [], [], refl, ne, new, taken),
      )

  -- On a pool with headers over a heap, `allocate` ends within the rounds of its drain.
  pub allocate-Answer :
      (p : Pool) (frees parked : List ℕ)
      → IsSound s p frees parked live slots
      → (r : Pool × Outcome ℕ) × (allocate s p ≡ some r) × Answer s live slots r
  unfolding allocate
  allocate-Answer p [] parked sound =
      let (r, e, answer) = or_drain-Answer p parked sound in (r, rw (pop-nil sound.pool) e, answer)
  allocate-Answer p (n ∷ fs) parked sound =
      let (popped, real, ne, new, taken) = hit s p n fs sound in
      (
        counted (record p { free_head = p.memory n }, n),
        rw (popped, real) refl,
        inl (n, fs, parked, [], refl, ne, new, taken),
      )
