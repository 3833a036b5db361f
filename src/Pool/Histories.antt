-- ===== src/Pool/Histories.antt =====
-- Histories of calls on a pool with headers, by its owner and by the threads that free its nodes.
use allocazam.Prelude.{
  ℕ, ◌+◌, ◌≤◌, ◌<◌, ◌≡◌, ◌≢◌, refl, subst, Bool-cases, ◌==◌, List, [], ◌∷◌, ◌++◌, true, some, inl,
  inr,
}
use allocazam.Memory.{Memory, write}
use allocazam.Exception.{Exception, Outcome, ok, throw}
use allocazam.Chunk.{sizeof_node}
use allocazam.Pool.{
  Setup, Pool, construct_lazy, construct_eager, push_free_node, allocate, deallocate, remote_push,
}
use allocazam.Pool.Tally.{tally, drop_one}
use allocazam.Pool.Invariant.{deallocate-IsPool, remote_push-IsPool, store-IsPool}
use allocazam.Pool.Heap.{IsHeap, IsGrown, same-IsGrown}
use allocazam.Pool.Add.{IsSound}
use allocazam.Pool.Allocate.{Answer, allocate-Answer}

-- A pool, with the nodes that it has given and not got back, goes on by one call, or by a word that a
-- client writes anywhere into a node that it holds.
pub data Step (s : Setup) (p : Pool) (live : List ℕ) : Pool → List ℕ → Type 0 where
  gives : {q : Pool} (n : ℕ) → n ≢ 0 → allocate s p ≡ some (q, ok n) → Step s p live q (n ∷ live)
  refuses : {q : Pool} → allocate s p ≡ some (q, ok 0) → Step s p live q live
  throws : {q : Pool} (why : Exception) → allocate s p ≡ some (q, throw why) → Step s p live q live
  frees : (n : ℕ) → 0 < tally n live → Step s p live (deallocate p n) (drop_one n live)
  parks : (n : ℕ) → 0 < tally n live → Step s p live (remote_push p n) (drop_one n live)
  stores :
      (n b v : ℕ)
      → 0 < tally n live
      → n ≤ b
      → b < n + sizeof_node s.layout
      → Step s p live (record p { memory = write p.memory b v }) live

-- From a pool that its lazy or its eager constructor returns.
pub data Reach (s : Setup) (self pool_size : ℕ) (mem : Memory) : Pool → List ℕ → Type 0 where
  starts : {p : Pool} → construct_lazy s self pool_size mem ≡ ok p → Reach s self pool_size mem p []
  starts_eagerly :
      {p : Pool} → construct_eager s self pool_size mem ≡ ok p → Reach s self pool_size mem p []
  goes :
      {p q : Pool} {live live' : List ℕ}
      → Reach s self pool_size mem p live
      → Step s p live q live'
      → Reach s self pool_size mem q live'

deallocate-IsGrown :
    {s : Setup} {p : Pool} {slots : List ℕ} (n : ℕ)
    → IsGrown s p slots
    → IsGrown s (deallocate p n) slots
unfolding deallocate push_free_node
deallocate-IsGrown n grown = elim (Bool-cases (n == 0)) [
  | inl null ↦ rw null grown
  | inr real ↦ rw real (same-IsGrown refl refl refl grown)
]

remote_push-IsGrown :
    {s : Setup} {p : Pool} {slots : List ℕ} (n : ℕ)
    → IsGrown s p slots
    → IsGrown s (remote_push p n) slots
unfolding remote_push
remote_push-IsGrown n grown = same-IsGrown refl refl refl grown

-- The pool is sound with some lists beside the live ones.
abbrev pub IsSane : Setup → Pool → List ℕ → Type 0
IsSane s p live =
    (frees : List ℕ) × (parked : List ℕ) × (slots : List ℕ) × IsSound s p frees parked live slots

module _ (s : Setup) (heap : IsHeap s) (on : s.headers ≡ true) where
  -- What an answer says of a given, a refused and a failed allocation.
  Answer-gives :
      {live slots : List ℕ} {q : Pool} (n : ℕ)
      → n ≢ 0
      → Answer s live slots (q, ok n)
      → IsSane s q (n ∷ live)
  Answer-gives {live} {slots} {q} n ne (inl (m, free, parked, more, e, real, new, sound)) =
      let same : n ≡ m = cc in (free, parked, more ++ slots, rw same sound)
  Answer-gives n ne (inr (inl (e, fix, sound))) = let null : n ≡ 0 = cc in absurd (ne null)
  Answer-gives n ne (inr (inr (why, e, sound))) = absurd (cc)

  Answer-refuses :
      {live slots : List ℕ} {q : Pool} → Answer s live slots (q, ok 0) → IsSane s q live
  Answer-refuses (inl (m, free, parked, more, e, real, new, sound)) =
      let null : m ≡ 0 = cc in absurd (real null)
  Answer-refuses {live} {slots} (inr (inl (e, fix, sound))) = ([], [], slots, sound)
  Answer-refuses (inr (inr (why, e, sound))) = absurd (cc)

  Answer-throws :
      {live slots : List ℕ} {q : Pool} (why : Exception)
      → Answer s live slots (q, throw why)
      → IsSane s q live
  Answer-throws why (inl (m, free, parked, more, e, real, new, sound)) = absurd (cc)
  Answer-throws why (inr (inl (e, fix, sound))) = absurd (cc)
  Answer-throws {live} {slots} why (inr (inr (same, e, sound))) = ([], [], slots, sound)

  answered :
      {p : Pool} {free parked live slots : List ℕ} (r : Pool × Outcome ℕ)
      → IsSound s p free parked live slots
      → allocate s p ≡ some r
      → Answer s live slots r
  answered {p} {free} {parked} {live} {slots} r sound e =
      let (r', e', answer) = allocate-Answer s heap on p free parked sound in
      let same : r' ≡ r = cc in subst (Answer s live slots) same answer

  -- Over a heap, each call on a sound pool with headers, each free by another thread and each write of
  -- any word of a live node leaves the pool sound, with the live nodes that the step says.
  pub Step-IsSane :
      {p q : Pool} {live live' : List ℕ}
      → IsSane s p live
      → Step s p live q live'
      → IsSane s q live'
  Step-IsSane (free, parked, slots, sound) (gives n ne e) = Answer-gives n ne (answered _ sound e)
  Step-IsSane (free, parked, slots, sound) (refuses e) = Answer-refuses (answered _ sound e)
  Step-IsSane (free, parked, slots, sound) (throws why e) = Answer-throws why (answered _ sound e)
  Step-IsSane (free, parked, slots, sound) (frees n held) = (
    n ∷ free,
    parked,
    slots,
    record { pool = deallocate-IsPool n sound.pool held; grown = deallocate-IsGrown n sound.grown },
  )
  Step-IsSane (free, parked, slots, sound) (parks n held) = (
    free,
    n ∷ parked,
    slots,
    record {
      pool = remote_push-IsPool n sound.pool held;
      grown = remote_push-IsGrown n sound.grown;
    },
  )
  Step-IsSane (free, parked, slots, sound) (stores n b v held from below) = (
    free,
    parked,
    slots,
    record {
      pool =
          store-IsPool n sound.pool held (sizeof_node s.layout) b v sound.grown.spaced from below;
      grown = same-IsGrown refl refl refl sound.grown;
    },
  )
