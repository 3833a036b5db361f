-- ===== src/Runner/Heap/Answer.antt =====
-- The steps of `allocate_bytes` behind the drain.
use allocazam.Prelude.{
  ℕ, ◌+◌, ◌%◌, ◌≤◌, ◌≡◌, ◌≢◌, refl, sym, ap, subst, List, ◌⊎◌, inl, inr, true, false, some, not,
  ◌&&◌, ◌==◌, arith, Bool-cases,
}
use allocazam.Word.{size_max}
use allocazam.Exception.{Outcome, ok, throw, bad_alloc}
use allocazam.Runner.Runs.{Runner, find_fit, payload_from_header}
use allocazam.Runner.Calls.{allocate_from_free_run}
use allocazam.Runner.Outside.{outside-allocate_from_free_run}
use allocazam.Runner.Chunks.{Setup, then_find, finish, or_grow, or_deferred, grow_for, add_deferred}
use allocazam.Runner.Heap.{Heap, IsRunner}
use allocazam.Runner.Heap.Grown.{Used}
use allocazam.Runner.Heap.Allocate.{allocate_from_free_run-IsTaken}
use allocazam.Runner.Heap.Covered.{IsCovered, smaller-IsCovered}
use allocazam.Runner.Heap.Fit.{IsFound, find_fit-IsFound}
use allocazam.Runner.Heap.Served.{IsSource, IsReady, IsServed, idle, outside-IsReady}
use allocazam.Runner.Heap.Refill.{IsRefilled, grow_for-IsRefilled, add_deferred-IsRefilled}
use allocazam.Runner.Heap.Result.{NoneFits, IsAnswer, served-IsAnswer}

module _ (s : Setup) (needed : ℕ) (source : IsSource s) (whole : needed % 16 ≡ 0)
    (least : 48 ≤ needed) (small : needed + 8 ≤ size_max) where
  -- What a step takes: a heap in order.
  pub record IsInOrder (r : Runner) (H : Heap) : Type 0 where
    pub lists : ℕ → List ℕ
    pub runner : IsRunner r H lists
    pub covered : IsCovered r.chunks H
    pub ready : IsReady s r

  pub after :
      {r q : Runner} {H : Heap} {gone : List ℕ}
      → (served : IsServed s r q H gone 0) → IsInOrder q served.heap
  after served = record {
    lists = served.lists;
    runner = served.runner;
    covered = served.covered;
    ready = served.ready;
  }

  not_taken :
      (r : Runner) (H : Heap) (h : ℕ) → H.free h ≡ true → (a size : ℕ) → Used H a size → a ≢ h
  not_taken r H h free a size (there, unused, read) e =
      absurd (let same : H.free a ≡ H.free h = ap H.free e in cc)

  take-IsAnswer :
      (r : Runner) (H : Heap) (h : ℕ)
      → IsInOrder r H
      → h ≢ 0
      → H.there h ≡ true
      → H.free h ≡ true
      → needed ≤ H.size h
      → IsAnswer s r H needed (finish needed r h)
  unfolding finish
  take-IsAnswer r H h is real_h there free fits =
      let q = (allocate_from_free_run r h needed).0 in
      let test : (h == 0) ≡ false = ground arith in
      let (taken, payload, owner) =
        allocate_from_free_run-IsTaken r H is.lists h needed is.runner there free whole least
          fits in
      let same = outside-allocate_from_free_run r h needed in
      let gives : finish needed r h ≡ some (q, ok (payload_from_header h)) =
        rw (finish, test) (ap (λ z. some (q, ok z)) payload) in
      let chunks : q.chunks ≡ r.chunks = ap (λ z. z.chunks) same in
      (
        q,
        ok (payload_from_header h),
        h,
        gives,
        record {
          heap = taken.heap;
          lists = taken.lists;
          runner = taken.runner;
          covered =
              subst (λ z. IsCovered z taken.heap) (sym chunks)
                (smaller-IsCovered r.chunks H taken.heap is.covered taken.inside);
          ready = outside-IsReady s r q same is.ready;
          self = ap (λ z. z.self) same;
          remote = ap (λ z. z.remote_head) same;
          used = λ a size some_bytes d u. (taken.used a size u d, refl);
          uses = λ a size u left.
              let not_h = not_taken r H h free a size u in (taken.uses a size u not_h, not_h);
          memory = λ b l.
              let (at_there, unused, read) = l.used in
              taken.memory b (record {
                at = l.at;
                there = at_there;
                used = unused;
                other = not_taken r H h free l.at l.size l.used;
                from = l.from;
                below = omega (arith, l.below);
              });
        },
        inr (
            inr (
              refl,
              (
                real_h,
                (taken.size, taken.taken, taken.enough),
                owner,
                λ size u. absurd (not_taken r H h free h size u refl),
              ),
              inl chunks,
            )),
      )

  finish-IsAnswer :
      (r : Runner) (H : Heap) (h : ℕ)
      → IsInOrder r H
      → IsFound H needed h
      → (h ≡ 0 → s.can_grow ≡ false)
      → IsAnswer s r H needed (finish needed r h)
  unfolding finish
  finish-IsAnswer r H h is (inr (real_h, there, free, fits)) no_growth =
      take-IsAnswer r H h is real_h there free fits
  finish-IsAnswer r H h is (inl (null, none_fits)) no_growth = (
    r,
    ok 0,
    0,
    rw null refl,
    idle s r H is.lists is.runner is.covered is.ready,
    inr (inl (refl, refl, no_growth null, none_fits)),
  )

  pub none_fit : (H : Heap) (h : ℕ) → IsFound H needed h → h ≡ 0 → NoneFits H needed
  none_fit H h (inl (null, none_fits)) e = none_fits
  none_fit H h (inr (real_h, there, free, fits)) e = absurd (real_h e)

  -- The search again, and what follows.
  pub found :
      (r : Runner) (H : Heap)
      → IsInOrder r H
      → (h : ℕ) × (find_fit r needed ≡ some h) × IsFound H needed h
  found r H is = find_fit-IsFound r H is.lists needed is.runner is.covered whole small

  or_grow-IsAnswer :
      (r : Runner) (H : Heap) (h : ℕ)
      → IsInOrder r H
      → IsFound H needed h
      → IsAnswer s r H needed (or_grow s needed r h)
  unfolding or_grow
  or_grow-IsAnswer r H h is fit = elim (Bool-cases ((h == 0) && s.can_grow)) [
    | inr stays ↦ rw stays (finish-IsAnswer r H h is fit (λ null. ground arith))
    | inl grows ↦ rw grows (
        refilled (none_fit H h fit (ground arith)) (inl (ground arith)) (grow_for s r needed) (
          grow_for-IsRefilled s r H is.lists is.runner is.covered source is.ready needed
            (omega arith)))
  ]
    where
      refilled :
          NoneFits H needed
          → ((s.can_grow ≡ true) ⊎ (r.deferred_bytes ≢ 0))
          → (tried : Runner × Outcome (Unit {0})) → IsRefilled s r H needed tried
          → IsAnswer s r H needed (then_find tried needed (finish needed))
      refilled none_fits cause (q, throw why) (inl (e, served, kept)) =
          let same : why ≡ bad_alloc = cc in
          (
            q,
            throw why,
            0,
            refl,
            served,
            inl (refl, ap throw same, subst (λ z. NoneFits z needed) (sym kept) none_fits, cause),
          )
      refilled none_fits cause (q, ok done) (inl (e, served, kept)) = absurd cc
      refilled none_fits cause (q, throw why) (inr more) = (let e = more.0 in absurd cc)
      refilled none_fits cause (q, ok done) (inr more) =
          let (served, (k, there, free, fits)) = more.1 in
          let (h', gives, fit') = found q served.heap (after served) in
          let some_found : h' ≢ 0 = elim fit' [
            | inl (null, still) ↦ absurd (let less = still k there free in omega arith)
            | inr some_fit ↦ some_fit.0
          ] in
          let next =
            finish-IsAnswer q served.heap h' (after served) fit'
              (λ null. absurd (some_found null)) in
          let (q', outcome, h'', gives', served', result) =
            served-IsAnswer s r q H needed (finish needed q h') none_fits cause served next in
          (q', outcome, h'', rw (then_find, gives) gives', served', result)

  pub or_deferred-IsAnswer :
      (r : Runner) (H : Heap) (h : ℕ)
      → IsInOrder r H
      → IsFound H needed h
      → IsAnswer s r H needed (or_deferred s needed r h)
  unfolding or_deferred
  or_deferred-IsAnswer r H h is fit = elim (Bool-cases ((h == 0) && not (r.deferred_bytes == 0))) [
    | inr stays ↦ rw stays (or_grow-IsAnswer r H h is fit)
    | inl adds ↦ rw adds (
        refilled (none_fit H h fit (ground arith)) (inr (ground arith)) (add_deferred s r)
          (add_deferred-IsRefilled s r H is.lists is.runner is.covered source is.ready))
  ]
    where
      refilled :
          NoneFits H needed
          → ((s.can_grow ≡ true) ⊎ (r.deferred_bytes ≢ 0))
          → (tried : Runner × Outcome (Unit {0})) → IsRefilled s r H 0 tried
          → IsAnswer s r H needed (then_find tried needed (or_grow s needed))
      refilled none_fits cause (q, throw why) (inl (e, served, kept)) =
          let same : why ≡ bad_alloc = cc in
          (
            q,
            throw why,
            0,
            refl,
            served,
            inl (refl, ap throw same, subst (λ z. NoneFits z needed) (sym kept) none_fits, cause),
          )
      refilled none_fits cause (q, ok done) (inl (e, served, kept)) = absurd cc
      refilled none_fits cause (q, throw why) (inr more) = (let e = more.0 in absurd cc)
      refilled none_fits cause (q, ok done) (inr more) =
          let served = more.1.0 in
          let (h', gives, fit') = found q served.heap (after served) in
          let next = or_grow-IsAnswer q served.heap h' (after served) fit' in
          let (q', outcome, h'', gives', served', result) =
            served-IsAnswer s r q H needed (or_grow s needed q h') none_fits cause served next in
          (q', outcome, h'', rw (then_find, gives) gives', served', result)
