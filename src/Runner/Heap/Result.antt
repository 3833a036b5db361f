-- ===== src/Runner/Heap/Result.antt =====
-- What a call of `allocate_bytes` answers.
use allocazam.Prelude.{
  ℕ, ◌≤◌, ◌<◌, ◌≡◌, ◌≢◌, refl, List, [], ◌⊎◌, inl, inr, true, false, Option, some,
}
use allocazam.Exception.{Outcome, ok, throw, bad_alloc}
use allocazam.Pool.Tally.{tally}
use allocazam.Runner.Runs.{Runner, owner_word, payload_from_header}
use allocazam.Runner.Chunks.{Setup}
use allocazam.Runner.Heap.{Heap}
use allocazam.Runner.Heap.Grown.{Used}
use allocazam.Runner.Heap.Served.{IsServed, compose}

-- The run at `h` is a new one of at least the needed bytes, and its header names the runner.
abbrev pub IsGiven : (q : Runner) (H heap : Heap) (gone : List ℕ) (needed h : ℕ) → Type 0
IsGiven q H heap gone needed h =
    (h ≢ 0)
    × ((size : ℕ) × Used heap h size × (needed ≤ size))
    × (q.memory (owner_word h) ≡ q.self)
    × ((size : ℕ) → Used H h size → 0 < tally (payload_from_header h) gone)

-- No free run is large enough.
abbrev pub NoneFits : Heap → ℕ → Type 0
NoneFits heap needed = (a : ℕ) → heap.there a ≡ true → heap.free a ≡ true → heap.size a < needed

-- The result of a call on the heap `H` that leaves `heap`: an exception, where no free run of that is
-- large enough and the runner can grow or has its first chunk to add; null, where none is and it
-- cannot grow; or the payload of a new run, and no chunk is added where one of `H` was large enough.
abbrev pub IsResult :
    (s : Setup) (r q : Runner) (H heap : Heap) (gone : List ℕ) (needed h : ℕ) → Outcome ℕ → Type 0
IsResult s r q H heap gone needed h outcome =
    ((h ≡ 0)
      × (outcome ≡ throw bad_alloc)
      × NoneFits heap needed
      × ((s.can_grow ≡ true) ⊎ (r.deferred_bytes ≢ 0)))
    ⊎ ((h ≡ 0) × (outcome ≡ ok 0) × (s.can_grow ≡ false) × NoneFits heap needed)
    ⊎ ((outcome ≡ ok (payload_from_header h))
        × IsGiven q H heap gone needed h
        × ((q.chunks ≡ r.chunks) ⊎ NoneFits H needed))

abbrev pub IsAnswer :
    (s : Setup) (r : Runner) (H : Heap) (needed : ℕ) → Option (Runner × Outcome ℕ) → Type 0
IsAnswer s r H needed result =
    (q : Runner) × (outcome : Outcome ℕ) × (h : ℕ) × (result ≡ some (q, outcome))
    × (served : IsServed s r q H [] h) × IsResult s r q H served.heap [] needed h outcome

-- An answer after a step that was made because no free run was large enough.
pub served-IsAnswer :
    (s : Setup) (r r' : Runner) (H : Heap) (needed : ℕ) (result : Option (Runner × Outcome ℕ))
    → NoneFits H needed
    → ((s.can_grow ≡ true) ⊎ (r.deferred_bytes ≢ 0))
    → (one : IsServed s r r' H [] 0) → IsAnswer s r' one.heap needed result
    → IsAnswer s r H needed result
served-IsAnswer s r r' H needed result none_fits cause one (q, outcome, h, gives, served, is) = (
  q,
  outcome,
  h,
  gives,
  compose s r r' q H [] h one served,
  elim is [
    | inl (null, thrown, still, _) ↦ inl (null, thrown, still, cause)
    | inr (inl null) ↦ inr (inl null)
    | inr (inr (e, given, chunks)) ↦
        let (real_h, run, owner, fresh) = given in
        let fresh' : (size : ℕ) → Used H h size → 0 < tally (payload_from_header h) [] =
          λ size u. fresh size (one.uses h size u refl).0 in
        inr (inr (e, (real_h, run, owner, fresh'), inr none_fits))
  ],
)
