-- ===== src/Runner/Heap/Drain.antt =====
-- The replay of the remote frees, `_drain_remote`.
use allocazam.Prelude.{
  ℕ, zero, suc, ◌+◌, ◌≤◌, ◌<◌, ◌≡◌, ◌≢◌, refl, sym, ap, subst, ◌∙◌, List, [], ◌∷◌, length, inl, inr,
  true, false, some, not, ◌==◌, arith, Bool-cases,
}
use allocazam.Memory.{Memory}
use allocazam.Pool.Tally.{tally, Chain, Chain-frame}
use allocazam.Runner.Runs.{Runner, chunk_bytes, payload_from_header}
use allocazam.Runner.Calls.{deallocate_bytes, replay, drain_remote}
use allocazam.Runner.Outside.{outside, outside-deallocate_bytes}
use allocazam.Runner.Heap.{Heap, IsRunner, Inside}
use allocazam.Runner.Heap.Grown.{Used}
use allocazam.Runner.Heap.Deallocate.{IsFreed, deallocate_bytes-IsFreed}
use allocazam.Runner.Heap.Covered.{IsCovered, in_chunks-length}

-- A runner with the memory and the bins of another.
pub renewed-IsRunner :
    (r o : Runner) (H : Heap) (lists : ℕ → List ℕ)
    → IsRunner r H lists
    → IsRunner
        (record o { memory = r.memory; bins = r.bins; bin_nonempty_mask = r.bin_nonempty_mask })
        H
        lists
renewed-IsRunner r o H lists is = record {
  tiled = is.tiled;
  listed = record {
    linked = is.listed.linked;
    once = is.listed.once;
    apart = is.listed.apart;
    aligned = is.listed.aligned;
    mask = is.listed.mask;
    marked = is.listed.marked;
  };
  sound = is.sound;
  complete = is.complete;
}

-- The payload of an allocated run.
abbrev pub IsHeld : Heap → ℕ → Type 0
IsHeld H p = (h : ℕ) × (size : ℕ) × (p ≡ payload_from_header h) × (size ≢ 0) × Used H h size

-- The payloads that other threads have freed are linked through their first words.
pub record IsParked (mem : Memory) (H : Heap) (head : ℕ) (parked : List ℕ) : Type 0 where
  pub chain : Chain mem head parked
  pub once : (p : ℕ) → tally p parked ≤ 1
  pub held : (p : ℕ) → 0 < tally p parked → IsHeld H p

-- A word behind the first one of an allocated run that is not parked.
pub record IsLeft (H : Heap) (parked : List ℕ) (b : ℕ) : Type 0 where
  pub at : ℕ
  pub size : ℕ
  pub used : Used H at size
  pub left : tally (payload_from_header at) parked ≡ 0
  pub from : at + 8 ≤ b
  pub below : b < at + size

-- All parked runs are free; the other allocated runs are the same ones, with what is in them.
pub record IsDrained (mem : Memory) (q : Runner) (H : Heap) (parked : List ℕ) : Type 0 where
  pub heap : Heap
  pub lists : ℕ → List ℕ
  pub runner : IsRunner q heap lists
  pub inside : Inside heap H
  pub used :
      (a size : ℕ) → Used heap a size → Used H a size × (tally (payload_from_header a) parked ≡ 0)
  pub uses :
      (a size : ℕ) → Used H a size → tally (payload_from_header a) parked ≡ 0 → Used heap a size
  pub memory : (b : ℕ) → IsLeft H parked b → q.memory b ≡ mem b

-- Nothing is parked.
nothing-IsDrained :
    (r : Runner) (H : Heap) (lists : ℕ → List ℕ) → IsRunner r H lists → IsDrained r.memory r H []
nothing-IsDrained r H lists is = record {
  heap = H;
  lists = lists;
  runner = is;
  inside = λ b w. w;
  used = λ a size u. (u, refl);
  uses = λ a size u left. u;
  memory = λ b left. refl;
}

module _ (r : Runner) (H : Heap) (lists : ℕ → List ℕ) (head p : ℕ) (parked : List ℕ)
    (is : IsRunner r H lists) (park : IsParked r.memory H head (p ∷ parked)) where
  abbrev h : ℕ
  h = (park.held p (ground arith)).0

  place : p ≡ h + 16
  place = (park.held p (ground arith)).2

  abbrev next : Runner
  next = deallocate_bytes r head

  freed : IsFreed r next H h
  freed =
      let (k, size, at, some_size, (there, unused, same)) = park.held p (ground arith) in
      subst (λ z. IsFreed r (deallocate_bytes r z) H h) (sym (park.chain.0 ∙ place))
        (deallocate_bytes-IsFreed r H lists h is there unused (λ e. some_size (sym same ∙ e)))

  -- The runs behind the first one are other ones.
  other : (x k : ℕ) → 0 < tally x parked → x ≡ k + 16 → k ≢ h
  other x k listed at e =
      let same : x ≡ p = omega (arith, place) in
      let none_left : tally p parked ≡ 0 = (let once = park.once p in ground arith) in
      omega (arith, ap (λ z. tally z parked) same)

  next-IsParked : IsParked next.memory freed.heap (r.memory p) parked
  next-IsParked = record {
    chain =
        Chain-frame r.memory next.memory (r.memory p) parked
          (λ x listed.
            let (k, size, at, some_size, (there, unused, same)) = park.held x (ground arith) in
            freed.memory x (record {
              at = k;
              there = there;
              used = unused;
              other = other x k listed at;
              from = omega arith;
              below = elim (is.tiled.sized k there) [
                | inl empty ↦ absurd (some_size (sym same ∙ empty))
                | inr large ↦ omega arith
              ];
            }))
          park.chain.2;
    once = λ x. (let once = park.once x in ground arith);
    held = λ x listed.
        let (k, size, at, some_size, u) = park.held x (ground arith) in
        (k, size, at, some_size, freed.uses k size u (other x k listed at));
  }

  -- Freeing the first one and then the others.
  first-IsDrained :
      (q : Runner) → IsDrained next.memory q freed.heap parked → IsDrained r.memory q H (p ∷ parked)
  first-IsDrained q d = record {
    heap = d.heap;
    lists = d.lists;
    runner = d.runner;
    inside = λ b w. freed.inside b (d.inside b w);
    used = λ a size u.
        let (u', left) = d.used a size u in
        let (u'', not_h) = freed.used a size u' in
        let not_p : a + 16 ≢ p = omega (arith, place) in (u'', ground arith);
    uses = λ a size u left.
        let not_h : a ≢ h = λ e. (let at_p : a + 16 ≡ p = omega (arith, place) in ground arith) in
        d.uses a size (freed.uses a size u not_h) (ground arith);
    memory = λ b l.
        let left = l.left in
        let not_h : l.at ≢ h =
          λ e. (let at_p : l.at + 16 ≡ p = omega (arith, place) in ground arith) in
        let (there, unused, same) = l.used in
        d.memory b (record {
          at = l.at;
          size = l.size;
          used = freed.uses l.at l.size l.used not_h;
          left = ground arith;
          from = l.from;
          below = l.below;
        })
        ∙ freed.memory b (record {
          at = l.at;
          there = there;
          used = unused;
          other = not_h;
          from = l.from;
          below = omega (arith, l.below);
        });
  }

replay-step :
    (rounds : ℕ) (r : Runner) (head : ℕ)
    → (head == 0) ≡ false
    → replay (suc rounds) r head ≡ replay rounds (deallocate_bytes r head) (r.memory head)
unfolding replay
replay-step rounds r head real =
    subst
      (λ z.
        elim z [ true ↦ some r | false ↦ replay rounds (deallocate_bytes r head) (r.memory head) ]
        ≡ replay rounds (deallocate_bytes r head) (r.memory head))
      (sym real) refl

replay-IsDrained :
    (rounds : ℕ) (r : Runner) (H : Heap) (lists : ℕ → List ℕ) (head : ℕ) (parked : List ℕ)
    → IsRunner r H lists
    → IsParked r.memory H head parked
    → length parked ≤ rounds
    → (q : Runner) × (replay rounds r head ≡ some q)
      × (outside q ≡ outside r)
      × IsDrained r.memory q H parked
unfolding replay
replay-IsDrained zero r H lists head (p ∷ parked) is park enough = absurd (omega arith)
replay-IsDrained zero r H lists head [] is park enough =
    (r, rw (park.chain) refl, refl, nothing-IsDrained r H lists is)
replay-IsDrained (suc rounds) r H lists head [] is park enough =
    (r, rw (park.chain) refl, refl, nothing-IsDrained r H lists is)
replay-IsDrained (suc rounds) r H lists head (p ∷ parked) is park enough =
    let freed_p = freed r H lists head p parked is park in
    let (q, gives, same, drained) =
      replay-IsDrained rounds (deallocate_bytes r head) freed_p.heap freed_p.lists (r.memory p)
        parked freed_p.runner (next-IsParked r H lists head p parked is park) (omega arith) in
    let real : (head == 0) ≡ false = (let (at, ne, _) = park.chain in ground arith) in
    let next_p : r.memory head ≡ r.memory p = ap r.memory park.chain.0 in
    (
      q,
      replay-step rounds r head real ∙ ap (replay rounds (deallocate_bytes r head)) next_p ∙ gives,
      same ∙ outside-deallocate_bytes r head,
      first-IsDrained r H lists head p parked is park q drained,
    )

none_parked :
    (mem : Memory) (head : ℕ) (parked : List ℕ) → head ≡ 0 → Chain mem head parked → parked ≡ []
none_parked mem head [] null c = refl
none_parked mem head (p ∷ parked) null c = absurd (c.1 (sym c.0 ∙ null))

-- Where the runs tile the chunks, the bins list the free ones, and the remote stack leads through
-- payloads of allocated runs, `_drain_remote` ends within its rounds, says whether any was parked,
-- and leaves none: the parked runs are free and the heap is in order; the other allocated runs are
-- the same ones as before, and no word of theirs behind the first is written.
pub drain_remote-IsDrained :
    (r : Runner) (H : Heap) (lists : ℕ → List ℕ) (parked : List ℕ)
    → IsRunner r H lists
    → IsCovered r.chunks H
    → IsParked r.memory H r.remote_head parked
    → (q : Runner) × (drain_remote r ≡ some (q, not (r.remote_head == 0)))
      × (outside q ≡ outside (record r { remote_head = 0 }))
      × IsDrained r.memory q H parked
unfolding drain_remote
drain_remote-IsDrained r H lists parked is covered park = elim (Bool-cases (r.remote_head == 0)) [
  | inl null ↦
      let cleared : r.remote_head ≡ 0 = ground arith in
      (
        r,
        rw null refl,
        ap (λ z. outside (record r { remote_head = z })) cleared,
        subst (IsDrained r.memory r H)
            (sym (none_parked r.memory r.remote_head parked cleared park.chain))
            (nothing-IsDrained r H lists is),
      )
  | inr real ↦
      let (q, gives, same, drained) =
        replay-IsDrained (chunk_bytes r.chunks) (record r { remote_head = 0 }) H lists r.remote_head
          parked (renewed-IsRunner r (record r { remote_head = 0 }) H lists is) park
          (in_chunks-length r.chunks parked park.once (λ p listed.
            let (k, size, at, some_size, (there, unused, read)) = park.held p listed in
            covered p (
              k,
              there,
              omega arith,
              elim (is.tiled.sized k there) [
                | inl empty ↦ absurd (some_size (sym read ∙ empty))
                | inr large ↦ omega arith
              ],
            ))) in
      (q, rw (real, gives) refl, same, drained)
]
