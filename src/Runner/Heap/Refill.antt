-- ===== src/Runner/Heap/Refill.antt =====
-- The steps of `allocate_bytes` that add a chunk.
use allocazam.Prelude.{
  ℕ, ◌+◌, ◌-◌, ◌≤◌, ◌≡◌, refl, sym, ap, subst, ◌∙◌, List, [], ◌⊎◌, inl, inr, max, arith,
  Option-cases,
}
use allocazam.Word.{size_max, checked_add, checked_mul}
use allocazam.Word.Checked.{checked_add-eq, checked_mul-eq}
use allocazam.Exception.{Outcome, ok, throw, bad_alloc}
use allocazam.Runner.Runs.{Runner}
use allocazam.Runner.Chunks.{
  Setup, add_owned_chunk, next_growth_after, set_growth, grow_for, add_deferred,
}
use allocazam.Runner.Heap.{Heap, IsRunner}
use allocazam.Runner.Heap.Covered.{IsCovered}
use allocazam.Runner.Heap.Drain.{renewed-IsRunner}
use allocazam.Runner.Heap.Served.{IsSource, IsReady, IsServed, idle}
use allocazam.Runner.Heap.Owned.{IsRoom, IsAdded, add_owned_chunk-IsAdded}

-- The fields of the growth change nothing else.
retuned :
    (s : Setup) (r q : Runner) (H : Heap) (room next deferred : ℕ)
    → next ≤ size_max
    → deferred ≤ size_max
    → (served : IsServed s r q H [] 0) × IsRoom served.heap room
    → (served : IsServed s r (record q { next_growth = next; deferred_bytes = deferred }) H [] 0)
      × IsRoom served.heap room
retuned s r q H room next deferred next_fits deferred_fits (served, space) = (
  record {
    heap = served.heap;
    lists = served.lists;
    runner =
        renewed-IsRunner q (record q { next_growth = next; deferred_bytes = deferred }) served.heap
          served.lists served.runner;
    covered = served.covered;
    ready = record {
      page_whole = served.ready.page_whole;
      page_real = served.ready.page_real;
      page_fits = served.ready.page_fits;
      growth_fits = next_fits;
      deferred_fits = deferred_fits;
      apart = served.ready.apart;
    };
    self = served.self;
    remote = served.remote;
    used = served.used;
    uses = served.uses;
    memory = served.memory;
  },
  space,
)

next_growth_after-le : (size : ℕ) → size ≤ size_max → next_growth_after size ≤ size_max
next_growth_after-le size small = elim (Option-cases (checked_mul size 2)) [
  | inl over ↦ rw (next_growth_after, over) (omega arith)
  | inr (doubled, gives) ↦
      let exact = sym (checked_mul-eq size 2 small (omega arith)) ∙ gives in
      let bounded : doubled ≤ size_max = ground arith in rw (next_growth_after, gives) (omega arith)
]

-- Either nothing has changed, or there is a new chunk with room.
abbrev pub IsRefilled : Setup → Runner → Heap → (room : ℕ) → Runner × Outcome (Unit {0}) → Type 0
IsRefilled s r H room (q, result) =
    ((result ≡ throw bad_alloc) × (served : IsServed s r q H [] 0) × (served.heap ≡ H))
    ⊎ ((result ≡ ok tt) × ((served : IsServed s r q H [] 0) × IsRoom served.heap room))

module _ (s : Setup) (r : Runner) (H : Heap) (lists : ℕ → List ℕ) (is : IsRunner r H lists)
    (covered : IsCovered r.chunks H) (source : IsSource s) (ready : IsReady s r) where
  set_growth-IsRefilled :
      (room bytes : ℕ) (added : Runner × Outcome ℕ) (next : ℕ → ℕ)
      → room ≤ bytes - 16
      → ((size : ℕ) → size ≤ size_max → next size ≤ size_max)
      → IsAdded s r H lists is covered source ready bytes added
      → IsRefilled s r H room (set_growth added next)
  set_growth-IsRefilled room bytes (q, throw why) next fits next_fits (inl (e, served, kept)) =
      let same : why ≡ bad_alloc = cc in inl (ap throw same, served, kept)
  set_growth-IsRefilled room bytes (q, ok size') next fits next_fits (inl (e, served, kept)) =
      absurd cc
  set_growth-IsRefilled room bytes (q, throw why) next fits next_fits (inr more) =
      let e = more.1 in absurd cc
  set_growth-IsRefilled room bytes (q, ok size') next fits next_fits
        (inr (size, e, le, bounded, grown)) =
      let (served, space) = grown in
      let same : size' ≡ size = cc in
      let (h, there, free, large) = space in
      inr (
        refl,
        retuned s r q H room (next size') q.deferred_bytes (next_fits size' (omega arith))
            served.ready.deferred_fits (served, (h, there, free, omega arith)),
      )

  pub grow_for-IsRefilled :
      (needed : ℕ) → needed ≤ size_max → IsRefilled s r H needed (grow_for s r needed)
  unfolding grow_for
  grow_for-IsRefilled needed small = elim (Option-cases (checked_add needed 64)) [
    | inl over ↦
        let e : grow_for s r needed ≡ (r, throw bad_alloc) = rw (grow_for, over) refl in
        subst (IsRefilled s r H needed) (sym e)
          (inl (refl, idle s r H lists is covered ready, refl))
    | inr (sum, gives) ↦
        let exact = sym (checked_add-eq needed 64 small (omega arith)) ∙ gives in
        let about : (sum ≡ needed + 64) × (sum ≤ size_max) = ground arith in
        let bytes = max r.next_growth sum in
        let e : grow_for s r needed ≡ set_growth (add_owned_chunk s r bytes) next_growth_after =
          rw (grow_for, gives) refl in
        subst (IsRefilled s r H needed) (sym e) (
          set_growth-IsRefilled needed bytes (add_owned_chunk s r bytes) next_growth_after
            (omega arith) next_growth_after-le
            (add_owned_chunk-IsAdded s r H lists is covered source ready bytes
              (let fits = ready.growth_fits in omega arith)))
  ]

  cleared-IsRefilled :
      (tried : Runner × Outcome (Unit {0}))
      → IsRefilled s r H 0 tried
      → let (q, result) = tried in
        IsRefilled s r H 0 (elim result [
          | throw why ↦ (q, throw why)
          | ok _ ↦ (record q { deferred_bytes = 0 }, ok tt)
        ])
  cleared-IsRefilled (q, throw why) refilled = refilled
  cleared-IsRefilled (q, ok done) (inl (e, served, kept)) = absurd cc
  cleared-IsRefilled (q, ok done) (inr more) =
      let grown = more.1 in
      inr (refl, retuned s r q H 0 q.next_growth 0 grown.0.ready.growth_fits (omega arith) grown)

  pub add_deferred-IsRefilled : IsRefilled s r H 0 (add_deferred s r)
  unfolding add_deferred
  add_deferred-IsRefilled =
      let added = add_owned_chunk s r r.deferred_bytes in
      cleared-IsRefilled (set_growth added (λ size. size)) (
        set_growth-IsRefilled 0 r.deferred_bytes added (λ size. size) (omega arith)
          (λ size fits. fits)
          (add_owned_chunk-IsAdded s r H lists is covered source ready r.deferred_bytes
            ready.deferred_fits))
