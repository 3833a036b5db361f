-- ===== src/Pool/Add.antt =====
-- `_add_chunk` and `_grow` of the pool with headers.
use allocazam.Prelude.{
  ℕ, ◌+◌, suc, ◌*◌, ◌≤◌, ◌<◌, ◌≡◌, refl, max, ◌∙◌, List, [], ◌∷◌, ◌++◌, true, ◌⊎◌, inl, inr, arith,
  length, some, Option-cases,
}
use native.Mathlib.Decide.{dec_lt}
use allocazam.Word.{size_max, checked_mul}
use allocazam.Word.Checked.{checked_mul_exact}
use allocazam.Word.Pow2.{pow2_pos}
use allocazam.Memory.{Memory}
use allocazam.Exception.{Exception, bad_alloc, ok, throw, Outcome-cases}
use allocazam.Chunk.{Chunk, sizeof_node, construct, granule_count}
use allocazam.Chunk.Outside.{Outside, stamp_owner-Outside}
use allocazam.Chunk.Owner.{IsHeadered}
use allocazam.Chunk.Build.{construct-IsHeadered}
use allocazam.Pool.{Setup, Pool, adopt, add_chunk, grow}
use allocazam.Pool.Tally.{tally, tally-append}
use allocazam.Pool.Invariant.{IsPool, same-IsPool}
use allocazam.Pool.Grow.{
  slots_of, push_slots-rest, push_slots_chunks, length-slots_of, stamped, adopt-IsPool,
}
use allocazam.Pool.Fresh.{headered-IsFresh, listed_inside, listed-IsSpaced, listed_whole}
use allocazam.Pool.Heap.{IsHeap, IsGrown, IsGiven-apart, IsGiven-Outside, IsGiven-le, IsGiven-mono}

-- The lists and the memory of a pool between two of its operations.
pub record IsSound (s : Setup) (p : Pool) (frees parked live slots : List ℕ) : Type 0 where
  pub pool : IsPool p frees parked live slots
  pub grown : IsGrown s p slots

adopt_chunks :
    (s : Setup) (p : Pool) (c : Chunk) (mem : Memory)
    → (adopt s p c mem).chunks ≡ p.chunks ++ (c ∷ [])
unfolding adopt
adopt_chunks s p c mem = push_slots_chunks s c c.count _

module _ (s : Setup) (p : Pool) (heap : IsHeap s) (on : s.headers ≡ true)
    {frees parked live slots : List ℕ} where
  -- A chunk that the constructor gave is taken in.
  adopt-IsSound :
      (c : Chunk) (mem : Memory)
      → IsHeadered s.layout c
      → s.news p.calls (granule_count s.layout c * c.alloc_align) c.alloc_align ≡ some c.nodes
      → ((a : ℕ)
          → Outside c.nodes (granule_count s.layout c * c.alloc_align) a
          → mem a ≡ p.memory a)
      → IsSound s p frees parked live slots
      → IsSound s
          (adopt s p c mem)
          (slots_of s c c.count ++ frees)
          parked
          live
          (slots_of s c c.count ++ slots)
  unfolding adopt
  adopt-IsSound c mem is answer same sound =
      let bytes = granule_count s.layout c * c.alloc_align in
      let given = sound.grown.given in
      let pos : 0 < c.alloc_align = rw is.pow2.2 (pow2_pos is.pow2.0) in
      let outside : (a : ℕ) → 0 < tally a slots → Outside c.nodes bytes a =
        λ a h. IsGiven-Outside heap p.calls a bytes c.alloc_align c.nodes (given a h) answer in
      let fresh =
        headered-IsFresh s c on is slots outside sound.pool.once sound.pool.no_null
          (λ a h. IsGiven-le heap p.calls a (given a h)) in
      let kept : (a : ℕ) → 0 < tally a slots → stamped s p c mem a ≡ p.memory a = λ a h.
        rw on
          (stamp_owner-Outside s.layout c p.self mem a pos (outside a h) ∙ same a (outside a h)) in
      let mixed : (x y : ℕ)
          → 0 < tally x slots
          → 0 < tally y (slots_of s c c.count)
          → (x + sizeof_node s.layout ≤ y) ⊎ (y + sizeof_node s.layout ≤ x) =
        λ x y used new.
          IsGiven-apart heap p.calls x y bytes c.alloc_align c.nodes (given x used) answer
            (listed_inside s c on is y c.count (omega arith) new).0
            (listed_whole s c on is y new) in
      let rest = push_slots-rest s c c.count (record p {
        chunks = p.chunks ++ (c ∷ []);
        memory = stamped s p c mem;
        calls = suc p.calls;
      }) in
      record {
        pool = adopt-IsPool s p c mem fresh kept sound.pool;
        grown = record {
          page = rest.0 ∙ sound.grown.page;
          growth = rw rest.1 sound.grown.growth;
          given = λ a h. rw rest.2 (elim (dec_lt 0 (tally a slots)) [
            | yes used ↦ IsGiven-mono (omega arith) (given a used)
            | no unused ↦
                let inside =
                  listed_inside s c on is a c.count (omega arith)
                    (omega (arith, h, tally-append a (slots_of s c c.count) slots)) in
                record {
                  call = p.calls;
                  bytes = bytes;
                  alignment = c.alloc_align;
                  base = c.nodes;
                  earlier = omega arith;
                  answer = answer;
                  from_base = inside.0;
                  below_top = inside.1;
                  whole =
                      listed_whole s c on is a
                        (omega (arith, h, tally-append a (slots_of s c c.count) slots));
                }
          ]);
          spaced = λ a b listed listed' lt.
              let here : (x : ℕ) → ℕ = λ x. tally x (slots_of s c c.count) in
              let split : (x : ℕ)
                  → 0 < tally x (slots_of s c c.count ++ slots)
                  → (0 < here x) ⊎ (0 < tally x slots) =
                λ x h. elim (dec_lt 0 (tally x slots)) [
                  | yes used ↦ inr used
                  | no unused ↦ inl (omega (arith, h, tally-append x (slots_of s c c.count) slots))
                ] in
              elim (split a listed) [
                | inr used ↦ elim (split b listed') [
                  | inr used' ↦ sound.grown.spaced a b used used' lt
                  | inl new' ↦ elim (mixed a b used new') [
                    | inl before ↦ before
                    | inr after ↦ absurd (omega arith)
                  ]
                ]
                | inl new ↦ elim (split b listed') [
                  | inr used' ↦ elim (mixed b a used' new) [
                    | inl before ↦ absurd (omega arith)
                    | inr after ↦ after
                  ]
                  | inl new' ↦ listed-IsSpaced s c on is a b new new' lt
                ]
              ];
        };
      }

  pub add_chunk-cases :
      (n : ℕ)
      → n ≤ size_max
      → IsSound s p frees parked live slots
      → ((why : Exception) × (add_chunk s p n ≡ (record p { calls = suc p.calls }, throw why))
          × IsSound s (record p { calls = suc p.calls }) frees parked live slots)
        ⊎ ((more : List ℕ) × (q : Pool) × (add_chunk s p n ≡ (q, ok tt))
            × (length more ≡ n)
            × ((c : Chunk) × (q.chunks ≡ p.chunks ++ (c ∷ [])) × (c.count ≡ n))
            × IsSound s q (more ++ frees) parked live (more ++ slots))
  unfolding add_chunk
  add_chunk-cases n small sound =
      elim (Outcome-cases
        (construct s.headers s.layout (s.news p.calls) n p.page_size p.alloc_align p.memory)) [
          | inl (why, failed) ↦ inl (
            why,
            rw (add_chunk, failed) refl,
            record {
              pool = same-IsPool refl refl refl refl refl sound.pool;
              grown = record {
                page = sound.grown.page;
                growth = sound.grown.growth;
                given = λ a h. IsGiven-mono (omega arith) (sound.grown.given a h);
                spaced = sound.grown.spaced;
              };
            },
          )
          | inr ((c, mem), made) ↦
              let (is, count, answer, same) =
                construct-IsHeadered s.layout (s.news p.calls) n p.page_size p.alloc_align p.memory
                  heap.lay heap.small (rw sound.grown.page heap.page_pow2) (heap.new p.calls) small
                  (rw on at made) in
              inr (
                slots_of s c c.count,
                adopt s p c mem,
                rw (add_chunk, made) refl,
                length-slots_of s c c.count ∙ count,
                (c, adopt_chunks s p c mem, count),
                adopt-IsSound c mem is answer same sound,
              )
        ]

-- A growth step adds at least one slot.
pub grow-cases :
    (s : Setup) (p : Pool) {frees parked live slots : List ℕ}
    → IsHeap s
    → s.headers ≡ true
    → IsSound s p frees parked live slots
    → ((why : Exception) × (q : Pool) × (grow s p ≡ (q, throw why))
        × IsSound s q frees parked live slots)
      ⊎ ((more : List ℕ) × (q : Pool) × (grow s p ≡ (q, ok tt))
          × (0 < length more)
          × IsSound s q (more ++ frees) parked live (more ++ slots))
unfolding grow
grow-cases s p {frees} {parked} {live} {slots} heap on sound =
    elim (Option-cases (checked_mul p.next_growth 2)) [
      | inl failed ↦ inl (bad_alloc, p, rw (grow, failed) refl, sound)
      | inr (doubled, got) ↦
          let exact = checked_mul_exact p.next_growth 2 sound.grown.growth (omega arith) got in
          let q = record p { next_growth = max 1 doubled } in
          let ready : IsSound s q frees parked live slots = record {
            pool = same-IsPool refl refl refl refl refl sound.pool;
            grown = record {
              page = sound.grown.page;
              growth = omega (arith, exact);
              given = sound.grown.given;
              spaced = sound.grown.spaced;
            };
          } in
          elim (add_chunk-cases s q heap on (max 1 doubled) (omega (arith, exact)) ready) [
            | inl (why, e, after) ↦
                inl (why, record q { calls = suc q.calls }, rw (grow, got) e, after)
            | inr (more, r, e, count, added, after) ↦
                inr (more, r, rw (grow, got) e, omega (arith, count), after)
          ]
    ]
