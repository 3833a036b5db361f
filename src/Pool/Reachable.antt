-- ===== src/Pool/Reachable.antt =====
-- What holds of every pool with headers that its calls can reach.
use allocazam.Prelude.{
  ℕ, ◌≤◌, ◌<◌, ◌≡◌, ◌≢◌, refl, Bool-cases, List, [], ◌++◌, true, some, ◌⊎◌, inl, inr, arith, length,
}
use allocazam.Word.{size_max}
use allocazam.Word.Pow2.{has_single_bit}
use allocazam.Memory.{Memory}
use allocazam.Exception.{Exception, Outcome, ok, throw}
use allocazam.Pool.{Setup, Pool, blank, construct_lazy, construct_eager, allocate, fixed_like}
use allocazam.Pool.Tally.{tally}
use allocazam.Pool.Heap.{IsHeap, IsGiven}
use allocazam.Pool.Add.{IsSound, add_chunk-cases}
use allocazam.Pool.Allocate.{allocate-Answer}
use allocazam.Pool.Histories.{Reach, starts, starts_eagerly, goes, IsSane, Step-IsSane}

abbrev pub fresh : Setup → (self pool_size : ℕ) → Memory → Pool
fresh s self pool_size mem = record (blank s self mem) { next_growth = pool_size }

module _ (s : Setup) (self pool_size : ℕ) (mem : Memory) (fits : pool_size ≤ size_max) where
  pub fresh-IsSound : IsSound s (fresh s self pool_size mem) [] [] [] []
  fresh-IsSound = record {
    pool = record {
      free_chain = refl;
      parked_chain = refl;
      tallied = λ a. refl;
      once = λ a. omega arith;
      no_null = refl;
      numbered = refl;
      sized = refl;
      total = refl;
      bounded = omega arith;
    };
    grown = record {
      page = refl;
      growth = fits;
      given = λ a h. absurd (omega arith);
      spaced = λ a b h. absurd (omega arith);
    };
  }

  construct_lazy-IsSane : {p : Pool} → construct_lazy s self pool_size mem ≡ ok p → IsSane s p []
  unfolding construct_lazy
  construct_lazy-IsSane {p} e = elim (Bool-cases (has_single_bit pool_size)) [
    | inr fails ↦ absurd (ground arith)
    | inl holds ↦
        let same : fresh s self pool_size mem ≡ p = cc in ([], [], [], rw⁻¹ same fresh-IsSound)
  ]

  construct_eager-IsSane :
      IsHeap s
      → s.headers ≡ true
      → {p : Pool} → construct_eager s self pool_size mem ≡ ok p
      → IsSane s p []
  unfolding construct_eager
  construct_eager-IsSane heap on {p} e = elim (Bool-cases (has_single_bit pool_size)) [
    | inr fails ↦ absurd (ground arith)
    | inl holds ↦
        elim (add_chunk-cases s (fresh s self pool_size mem) heap on pool_size fits fresh-IsSound) [
          | inl (why, failed, after) ↦ absurd (ground arith)
          | inr (more, q, added, count, chunk, after) ↦
              let same : q ≡ p = cc in (more ++ [], [], more ++ [], rw⁻¹ same after)
        ]
  ]

  pub reachable-IsSane :
      IsHeap s
      → s.headers ≡ true
      → {p : Pool} {live : List ℕ} → Reach s self pool_size mem p live
      → IsSane s p live
  reachable-IsSane heap on (starts e) = construct_lazy-IsSane e
  reachable-IsSane heap on (starts_eagerly e) = construct_eager-IsSane heap on e
  reachable-IsSane heap on (goes before step) =
      Step-IsSane s heap on (reachable-IsSane heap on before) step

-- Over a heap, no history of a pool with headers has a node live twice: the live nodes are
-- different, none is null, each lies in memory that `operator new[]` gave to the pool, and the
-- pool's counts bound their number.
pub reachable-live :
    (s : Setup) (self pool_size : ℕ) (mem : Memory) {p : Pool} {live : List ℕ}
    → IsHeap s
    → s.headers ≡ true
    → pool_size ≤ size_max
    → Reach s self pool_size mem p live
    → ((a : ℕ) → tally a live ≤ 1)
      × (tally 0 live ≡ 0)
      × ((a : ℕ) → 0 < tally a live → IsGiven s p.calls a)
      × (length live ≤ p.size)
      × (p.size ≤ p.capacity)
reachable-live s self pool_size mem heap on fits reach =
    let (free, parked, slots, sound) = reachable-IsSane s self pool_size mem fits heap on reach in
    let is = sound.pool in
    (
      λ a. omega (arith, is.tallied a, is.once a),
      omega (arith, is.tallied 0, is.no_null),
      λ a held. sound.grown.given a (omega (arith, is.tallied a, held)),
      omega (arith, is.sized),
      omega (arith, is.sized, is.numbered, is.total),
    )

-- On every pool with headers that is reachable over a heap, `allocate` ends. It gives a node that is
-- not null and not live; or it gives null, in a fixed mode, or an exception leaves it, and in both
-- cases all of the capacity was live.
pub reachable-allocate :
    (s : Setup) (self pool_size : ℕ) (mem : Memory) {p : Pool} {live : List ℕ}
    → IsHeap s
    → s.headers ≡ true
    → pool_size ≤ size_max
    → Reach s self pool_size mem p live
    → (q : Pool) × (r : Outcome ℕ) × (allocate s p ≡ some (q, r))
      × (((n : ℕ) × (r ≡ ok n) × (n ≢ 0) × (tally n live ≡ 0))
          ⊎ ((r ≡ ok 0) × (fixed_like s.mode ≡ true) × (length live ≡ p.capacity))
          ⊎ ((why : Exception) × (r ≡ throw why) × (length live ≡ p.capacity)))
reachable-allocate s self pool_size mem {p} {live} heap on fits reach =
    let (free, parked, slots, sound) = reachable-IsSane s self pool_size mem fits heap on reach in
    let ((q, r), e, answer) = allocate-Answer s heap on p free parked sound in
    (
      q,
      r,
      e,
      elim answer [
        | inl (n, _, _, _, given, ne, new, _) ↦ inl (n, given, ne, new)
        | inr (inl (null, fix, after)) ↦
            inr (inl (null, fix, omega (arith, after.pool.numbered, sound.pool.total)))
        | inr (inr (why, thrown, after)) ↦
            inr (inr (why, thrown, omega (arith, after.pool.numbered, sound.pool.total)))
      ],
    )
