-- ===== src/Runner/Heap/Served.antt =====
-- What the steps of `allocate_bytes` leave, and what they need of the platform.
use allocazam.Prelude.{ℕ, ◌+◌, ◌%◌, ◌≤◌, ◌<◌, ◌≡◌, ◌≢◌, refl, sym, subst, ◌∙◌, List, [], ◌⊎◌, false}
use allocazam.Word.{size_max}
use allocazam.Pool.Tally.{tally}
use allocazam.OwnedMemory.{IsPlatform, OwnedMemory, value, allocate_owned_memory}
use allocazam.Runner.Runs.{Runner, payload_from_header}
use allocazam.Runner.Calls.{in_chunks}
use allocazam.Runner.Outside.{outside}
use allocazam.Runner.Chunks.{Setup}
use allocazam.Runner.Heap.{Heap, IsRunner}
use allocazam.Runner.Heap.Grown.{Used}
use allocazam.Runner.Heap.Covered.{IsCovered}
use allocazam.Runner.Heap.Drain.{IsLeft}

-- Each call for memory keeps the platform's promises, and no two give a byte in common.
pub record IsSource (s : Setup) : Type 0 where
  pub platform : (k : ℕ) → IsPlatform (s.platforms k)
  pub distinct :
      (k j size size' : ℕ) (m m' : OwnedMemory)
      → k ≢ j
      → allocate_owned_memory s.huge (s.platforms k) size 16 ≡ value m
      → allocate_owned_memory s.huge (s.platforms j) size' 16 ≡ value m'
      → (b : ℕ) → m.base ≤ b
      → b < m.base + m.bytes
      → (b < m'.base) ⊎ (m'.base + m'.bytes ≤ b)

-- A page is a multiple of the alignment, and no further call for memory gives a byte of a chunk.
pub record IsReady (s : Setup) (r : Runner) : Type 0 where
  pub page_whole : r.page_size % 16 ≡ 0
  pub page_real : 0 < r.page_size
  pub page_fits : r.page_size ≤ size_max
  pub growth_fits : r.next_growth ≤ size_max
  pub deferred_fits : r.deferred_bytes ≤ size_max
  pub apart :
      (k size : ℕ) (m : OwnedMemory)
      → r.calls ≤ k
      → allocate_owned_memory s.huge (s.platforms k) size 16 ≡ value m
      → (b : ℕ) → m.base ≤ b
      → b < m.base + m.bytes
      → in_chunks r.chunks b ≡ false

-- The heap is in order; but for the run at `h`, 0 for none, and the ones that are gone the allocated
-- runs are the same, with what is in them behind the first word.
pub record IsServed (s : Setup) (r q : Runner) (H : Heap) (gone : List ℕ) (h : ℕ) : Type 0 where
  pub heap : Heap
  pub lists : ℕ → List ℕ
  pub runner : IsRunner q heap lists
  pub covered : IsCovered q.chunks heap
  pub ready : IsReady s q
  pub self : q.self ≡ r.self
  pub remote : q.remote_head ≡ r.remote_head
  pub used :
      (a size : ℕ)
      → size ≢ 0
      → a ≢ h
      → Used heap a size
      → Used H a size × (tally (payload_from_header a) gone ≡ 0)
  pub uses :
      (a size : ℕ)
      → Used H a size
      → tally (payload_from_header a) gone ≡ 0
      → Used heap a size × (a ≢ h)
  pub memory : (b : ℕ) → IsLeft H gone b → q.memory b ≡ r.memory b

-- Only what the calls on runs do not touch matters.
pub outside-IsReady : (s : Setup) (r q : Runner) → outside q ≡ outside r → IsReady s r → IsReady s q
outside-IsReady s r q same ready =
    let kept : IsReady s (outside r) = record {
      page_whole = ready.page_whole;
      page_real = ready.page_real;
      page_fits = ready.page_fits;
      growth_fits = ready.growth_fits;
      deferred_fits = ready.deferred_fits;
      apart = ready.apart;
    } in
    let moved = subst (IsReady s) (sym same) kept in
    record {
      page_whole = moved.page_whole;
      page_real = moved.page_real;
      page_fits = moved.page_fits;
      growth_fits = moved.growth_fits;
      deferred_fits = moved.deferred_fits;
      apart = moved.apart;
    }

-- Nothing has happened.
abbrev pub idle :
    (s : Setup) (r : Runner) (H : Heap) (lists : ℕ → List ℕ)
    → IsRunner r H lists
    → IsCovered r.chunks H
    → IsReady s r
    → IsServed s r r H [] 0
idle s r H lists is covered ready = record {
  heap = H;
  lists = lists;
  runner = is;
  covered = covered;
  ready = ready;
  self = refl;
  remote = refl;
  used = λ a size some_bytes d u. (u, refl);
  uses = λ a size u left. (u, (is.tiled.aligned a u.0).2);
  memory = λ b left. refl;
}

-- One step after the other.
abbrev pub compose :
    (s : Setup) (r r' q : Runner) (H : Heap) (gone : List ℕ) (h : ℕ)
    → (one : IsServed s r r' H gone 0) → IsServed s r' q one.heap [] h
    → IsServed s r q H gone h
compose s r r' q H gone h one two = record {
  heap = two.heap;
  lists = two.lists;
  runner = two.runner;
  covered = two.covered;
  ready = two.ready;
  self = two.self ∙ one.self;
  remote = two.remote ∙ one.remote;
  used = λ a size some_bytes d u.
      let (u', _) = two.used a size some_bytes d u in
      one.used a size some_bytes (one.runner.tiled.aligned a u'.0).2 u';
  uses = λ a size u left. two.uses a size (one.uses a size u left).0 refl;
  memory = λ b l.
      two.memory b (record {
        at = l.at;
        size = l.size;
        used = (one.uses l.at l.size l.used l.left).0;
        left = refl;
        from = l.from;
        below = l.below;
      })
      ∙ one.memory b l;
}
