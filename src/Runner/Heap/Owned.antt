-- ===== src/Runner/Heap/Owned.antt =====
-- The chunk of a new region, `_add_owned_chunk`.
use native.Mathlib.Nat.{mul-mod_right, mul_assoc, mod-add-div}
use allocazam.Prelude.{
  ℕ, suc, ◌+◌, ◌*◌, ◌/◌, ◌-◌, ◌%◌, ◌≤◌, ◌<◌, ◌≡◌, refl, sym, ap, subst, ◌∙◌, List, [], ◌∷◌, ◌⊎◌,
  inl, inr, true, false, none, some, max, leb, ltb, ◌&&◌, if◌then◌else◌, arith, Bool-cases,
}
use allocazam.Word.{size_max}
use allocazam.Word.Checked.{checked_round-least}
use allocazam.Exception.{Outcome, ok, throw, bad_alloc}
use allocazam.OwnedMemory.{
  HugePages, enabled, disabled, OwnedMemory, OwnedMemoryError, Expected, value, unexpected,
  allocate_owned_memory,
}
use allocazam.OwnedMemory.Laws.{IsRegion, allocate-IsRegion, allocate-granular}
use allocazam.Runner.Runs.{ChunkNode, Runner, link_free}
use allocazam.Runner.Calls.{in_chunks}
use allocazam.Runner.Chunks.{
  Setup, owned_chunk_granularity, owned_chunk_bytes_for, owned_node, add_owned_chunk,
  initialize_free_run,
}
use allocazam.Runner.Heap.{Heap, IsRunner}
use allocazam.Runner.Heap.Chunks.{IsNewChunk, extended}
use allocazam.Runner.Heap.Extended.{initialize_free_run-IsRunner}
use allocazam.Runner.Heap.Covered.{IsCovered}
use allocazam.Runner.Heap.Drain.{renewed-IsRunner}
use allocazam.Runner.Heap.Grow.{
  apart-outside, extended-used, extended-uses, extended-IsCovered, extended-memory,
}
use allocazam.Runner.Heap.Served.{IsSource, IsReady, IsServed, idle}

Expected-cases :
    (e : Expected)
    → ((why : OwnedMemoryError) × (e ≡ unexpected why)) ⊎ ((m : OwnedMemory) × (e ≡ value m))
Expected-cases (unexpected why) = inl (why, refl)
Expected-cases (value m) = inr (m, refl)

multiple_mod : (g k : ℕ) → g % 16 ≡ 0 → g * k % 16 ≡ 0
multiple_mod g k whole =
    let sixteens : g ≡ 16 * (g / 16) = omega arith in
    subst (λ z. z * k % 16 ≡ 0) (sym sixteens)
      (rw (mul_assoc 16 (g / 16) k) (mul-mod_right 16 (g / 16 * k)))

-- A multiple of a multiple of 16.
mod_of_multiple : (size g : ℕ) → g % 16 ≡ 0 → size % g ≡ 0 → size % 16 ≡ 0
mod_of_multiple size g whole none_left =
    let sum = mod-add-div size g in
    let parts : size ≡ g * (size / g) =
      sym sum ∙ ap (λ z. z + g * (size / g)) none_left ∙ omega arith in
    subst (λ z. z % 16 ≡ 0) (sym parts) (multiple_mod g (size / g) whole)

granularity_words :
    (huge : HugePages) (page : ℕ)
    → page % 16 ≡ 0
    → 0 < page
    → page ≤ size_max
    → let g = owned_chunk_granularity huge page in (g % 16 ≡ 0) × (0 < g) × (g ≤ size_max)
unfolding owned_chunk_granularity
granularity_words enabled page whole some_page small = (omega arith, omega arith, omega arith)
granularity_words disabled page whole some_page small = (whole, some_page, small)

owned_chunk_bytes_for-cases :
    (huge : HugePages) (page bytes : ℕ)
    → page % 16 ≡ 0
    → 0 < page
    → page ≤ size_max
    → bytes ≤ size_max
    → (owned_chunk_bytes_for huge page bytes ≡ throw bad_alloc)
      ⊎ ((size : ℕ) × (owned_chunk_bytes_for huge page bytes ≡ ok size)
          × (size % 16 ≡ 0)
          × (bytes ≤ size)
          × (64 ≤ size)
          × (size ≤ size_max))
unfolding owned_chunk_bytes_for
owned_chunk_bytes_for-cases huge page bytes whole some_page small small' =
    let g = owned_chunk_granularity huge page in
    let (g_whole, g_real, g_small) = granularity_words huge page whole some_page small in
    let (size, least, gives) = checked_round-least (max bytes 64) g (omega arith) g_small g_real in
    elim (Bool-cases (leb size size_max)) [
      | inr over ↦ inl (let e = gives ∙ ap (λ z. if z then some size else none) over in rw e refl)
      | inl fits ↦ inr (
        size,
        (let e = gives ∙ ap (λ z. if z then some size else none) fits in rw e refl),
        mod_of_multiple size g g_whole least.0,
        omega (arith, least.1),
        omega (arith, least.1),
        ground arith,
      )
    ]

-- A free run of at least that many bytes.
abbrev pub IsRoom : Heap → ℕ → Type 0
IsRoom H bytes = (h : ℕ) × (H.there h ≡ true) × (H.free h ≡ true) × (bytes ≤ H.size h)

module _ (s : Setup) (r : Runner) (H : Heap) (lists : ℕ → List ℕ) (is : IsRunner r H lists)
    (covered : IsCovered r.chunks H) (source : IsSource s) (ready : IsReady s r) where
  abbrev called : Runner
  called = record r { calls = suc r.calls }

  -- The call for memory has failed.
  abbrev refused : IsServed s r called H [] 0
  refused = record {
    heap = H;
    lists = lists;
    runner = renewed-IsRunner r called H lists is;
    covered = covered;
    ready = record {
      page_whole = ready.page_whole;
      page_real = ready.page_real;
      page_fits = ready.page_fits;
      growth_fits = ready.growth_fits;
      deferred_fits = ready.deferred_fits;
      apart = λ k size m later. ready.apart k size m (omega arith);
    };
    self = refl;
    remote = refl;
    used = λ a size some_bytes d u. (u, refl);
    uses = λ a size u left. (u, (is.tiled.aligned a u.0).2);
    memory = λ b left. refl;
  }

  module _ (size : ℕ) (m : OwnedMemory) (whole : size % 16 ≡ 0) (large : 64 ≤ size)
      (small : size ≤ size_max)
      (gives : allocate_owned_memory s.huge (s.platforms r.calls) size 16 ≡ value m) where
    abbrev c : ChunkNode
    c = owned_node m

    abbrev added : Runner
    added = record called { chunks = c ∷ r.chunks }

    region : IsRegion size 16 m
    region =
        allocate-IsRegion s.huge (s.platforms r.calls) size 16 m (source.platform r.calls) small
          gives

    new : IsNewChunk H m.base m.bytes
    new =
        (let (base_whole, bytes_whole) =
            allocate-granular s.huge (s.platforms r.calls) size m (source.platform r.calls) whole
              small gives in
          record {
            aligned = base_whole;
            whole = bytes_whole;
            large = omega (arith, region.large);
            not_null = region.not_null;
            fits = omega (arith, region.fits);
            outside =
                apart-outside H r.chunks m.base m.bytes covered (omega (arith, region.large))
                  (ready.apart r.calls size m (omega arith) gives);
          })

    added-IsRunner : IsRunner added H lists
    added-IsRunner = renewed-IsRunner r added H lists is

    abbrev grown : Heap
    grown = extended added H lists c added-IsRunner new

    later_apart :
        (k size' : ℕ) (m' : OwnedMemory)
        → suc r.calls ≤ k
        → allocate_owned_memory s.huge (s.platforms k) size' 16 ≡ value m'
        → (b : ℕ) → m'.base ≤ b
        → b < m'.base + m'.bytes
        → in_chunks (c ∷ r.chunks) b ≡ false
    unfolding in_chunks
    later_apart k size' m' later gives' b from below =
        let old = ready.apart k size' m' (omega arith) gives' b from below in
        elim (source.distinct k r.calls size' size m' m (omega arith) gives' gives b from below) [
          | inl under ↦
              (let test : (leb m.base b && ltb b (m.base + m.bytes)) ≡ false = ground arith in
                rw test old)
          | inr above ↦
              (let test : (leb m.base b && ltb b (m.base + m.bytes)) ≡ false = ground arith in
                rw test old)
        ]

    owned :
        (served : IsServed s r (initialize_free_run added c) H [] 0) × IsRoom served.heap
          (size - 16)
    unfolding initialize_free_run link_free
    owned = (
      record {
        heap = grown;
        lists = (initialize_free_run-IsRunner added H lists c added-IsRunner new).0;
        runner = (initialize_free_run-IsRunner added H lists c added-IsRunner new).1;
        covered = extended-IsCovered added H lists c added-IsRunner new r.chunks covered;
        ready = record {
          page_whole = ready.page_whole;
          page_real = ready.page_real;
          page_fits = ready.page_fits;
          growth_fits = ready.growth_fits;
          deferred_fits = ready.deferred_fits;
          apart = later_apart;
        };
        self = refl;
        remote = refl;
        used = λ a size some_bytes d u.
            (extended-used added H lists c added-IsRunner new a size some_bytes u, refl);
        uses = λ a size u left.
            (extended-uses added H lists c added-IsRunner new a size u, (is.tiled.aligned a u.0).2);
        memory = λ b l.
            let (there, unused, same) = l.used in
            extended-memory added H lists c added-IsRunner new b (record {
              at = l.at;
              there = there;
              used = unused;
              other = (is.tiled.aligned l.at there).2;
              from = l.from;
              below = omega (arith, l.below);
            });
      },
      (let large' = region.large in (m.base, ground arith, ground arith, ground arith)),
    )

  -- Either nothing has changed, or there is a new chunk of at least the bytes asked for.
  abbrev pub IsAdded : (bytes : ℕ) → Runner × Outcome ℕ → Type 0
  IsAdded bytes (q, result) =
      ((result ≡ throw bad_alloc) × (served : IsServed s r q H [] 0) × (served.heap ≡ H))
      ⊎ ((size : ℕ) × (result ≡ ok size)
          × (bytes ≤ size)
          × (size ≤ size_max)
          × ((served : IsServed s r q H [] 0) × IsRoom served.heap (size - 16)))

  pub add_owned_chunk-IsAdded :
      (bytes : ℕ) → bytes ≤ size_max → IsAdded bytes (add_owned_chunk s r bytes)
  unfolding add_owned_chunk
  add_owned_chunk-IsAdded bytes small =
      elim (owned_chunk_bytes_for-cases s.huge r.page_size bytes ready.page_whole ready.page_real
        ready.page_fits small) [
          | inl over ↦
              let e : add_owned_chunk s r bytes ≡ (r, throw bad_alloc) =
                rw (add_owned_chunk, over) refl in
              subst (IsAdded bytes) (sym e) (inl (refl, idle s r H lists is covered ready, refl))
          | inr (size, gives, whole, fits, large, bounded) ↦ elim (Bool-cases (s.nodes r.calls)) [
            | inr no_node ↦
                let e : add_owned_chunk s r bytes ≡ (called, throw bad_alloc) =
                  rw (add_owned_chunk, gives, no_node) refl in
                subst (IsAdded bytes) (sym e) (inl (refl, refused, refl))
            | inl node ↦
                elim (Expected-cases (allocate_owned_memory s.huge (s.platforms r.calls) size 16)) [
                  | inl (why, failed) ↦
                      let e : add_owned_chunk s r bytes ≡ (called, throw bad_alloc) =
                        rw (add_owned_chunk, gives, node, failed) refl in
                      subst (IsAdded bytes) (sym e) (inl (refl, refused, refl))
                  | inr (m, got) ↦
                      let e : add_owned_chunk s r bytes ≡ (
                        initialize_free_run (added size m whole large bounded got) (owned_node m),
                        ok size,
                      ) =
                        rw (add_owned_chunk, gives, node, got) refl in
                      subst (IsAdded bytes) (sym e)
                        (inr (size, refl, fits, bounded, owned size m whole large bounded got))
                ]
          ]
        ]
