-- ===== src/Pool/Fresh.antt =====
-- A chunk with headers in memory apart from the pool's slots is fresh to the pool.
use native.Mathlib.Decide.{ℕ_discrete, dec_lt}
use allocazam.Prelude.{
  ℕ, zero, suc, ◌+◌, ◌*◌, ◌≤◌, ◌<◌, ◌≡◌, ◌≢◌, refl, subst, ap, sym, ◌∙◌, List, true, inl, inr,
  arith, length-append, ◌++◌,
}
use allocazam.Word.{size_max}
use allocazam.Layout.{Layout}
use allocazam.Chunk.{Chunk, sizeof_node, at, granule_count}
use allocazam.Chunk.Owner.{IsHeadered, at_bounds}
use allocazam.Chunk.Outside.{Outside}
use allocazam.Chunk.Contains.{at-injective}
use allocazam.Pool.{Setup}
use allocazam.Pool.Tally.{tally, tally-append}
use allocazam.Pool.Heap.{IsSpaced, addresses-length}
use allocazam.Chunk.Spacing.{at_apart}
use allocazam.Pool.Grow.{slots_of, length-slots_of, IsFresh}

module _ (T : Layout) (c : Chunk) (is : IsHeadered T c) where
  at-not-Outside :
      (i : ℕ) → i < c.count → ¬ Outside c.nodes (granule_count T c * c.alloc_align) (at true T c i)
  at-not-Outside i lt (inl below) = omega (arith, at_bounds T c is i lt)
  at-not-Outside i lt (inr above) = omega (arith, at_bounds T c is i lt, is.size_pos)

  at_ne_zero : (i : ℕ) → i < c.count → at true T c i ≢ 0
  at_ne_zero i lt e = omega (arith, at_bounds T c is i lt, is.not_null)

module _ (s : Setup) (c : Chunk) (on : s.headers ≡ true) (is : IsHeadered s.layout c) where
  slot_at : (i : ℕ) → at s.headers s.layout c i ≡ at true s.layout c i
  slot_at i = ap (λ h. at h s.layout c i) on

  -- An address that is no slot is not listed.
  not_listed :
      (a n : ℕ) → ((i : ℕ) → i < n → at true s.layout c i ≢ a) → tally a (slots_of s c n) ≡ 0
  not_listed a zero ne = refl
  not_listed a (suc n) ne =
      let last : at s.headers s.layout c n ≢ a = λ e. ne n (omega arith) (sym (slot_at n) ∙ e) in
      ground (arith, not_listed a n (λ i lt. ne i (omega arith)))

  listed_once : (a n : ℕ) → n ≤ c.count → tally a (slots_of s c n) ≤ 1
  listed_once a zero le = omega arith
  listed_once a (suc n) le = elim (ℕ_discrete a (at s.headers s.layout c n)) [
    | no ne ↦ ground (arith, listed_once a n (omega arith))
    | yes e ↦
        let rest = not_listed a n (λ i lt same.
          let clash =
            at-injective s.layout c is i n (omega arith) (omega arith) (same ∙ e ∙ slot_at n) in
          omega (arith, clash)) in
        ground (arith, rest)
  ]

  -- A listed address is a slot's.
  pub listed_slot :
      (a n : ℕ) → 0 < tally a (slots_of s c n) → (i : ℕ) × (i < n) × (at true s.layout c i ≡ a)
  listed_slot a zero h = absurd (omega arith)
  listed_slot a (suc n) h = elim (ℕ_discrete a (at s.headers s.layout c n)) [
    | yes e ↦ (n, omega arith, sym (e ∙ slot_at n))
    | no ne ↦ let (i, lt, place) = listed_slot a n (ground arith) in (i, omega arith, place)
  ]

  -- So the chunk's slots do not overlap, and lie in its memory whole.
  pub listed-IsSpaced : IsSpaced s (slots_of s c c.count)
  listed-IsSpaced a b listed listed' lt =
      let (i, below, e) = listed_slot a c.count listed in
      let (j, below', e') = listed_slot b c.count listed' in
      elim (dec_lt i j) [
        | yes later ↦ omega (arith, at_apart s.layout c is i j later below')
        | no back ↦ elim (ℕ_discrete i j) [
          | yes same ↦ absurd (omega (arith, ap (at true s.layout c) same))
          | no other ↦ absurd (omega (arith, at_apart s.layout c is j i (omega arith) below))
        ]
      ]

  pub listed_whole :
      (a : ℕ)
      → 0 < tally a (slots_of s c c.count)
      → a + sizeof_node s.layout ≤ c.nodes + granule_count s.layout c * c.alloc_align
  listed_whole a listed =
      let (i, below, e) = listed_slot a c.count listed in
      omega (arith, at_bounds s.layout c is i below)

  -- A listed slot lies in the chunk's memory.
  pub listed_inside :
      (a n : ℕ)
      → n ≤ c.count
      → 0 < tally a (slots_of s c n)
      → (c.nodes ≤ a) × (a < c.nodes + granule_count s.layout c * c.alloc_align)
  listed_inside a zero le h = absurd (omega arith)
  listed_inside a (suc n) le h =
      let inside = at_bounds s.layout c is n le in
      elim (ℕ_discrete a (at s.headers s.layout c n)) [
        | no ne ↦ listed_inside a n (omega arith) (ground arith)
        | yes e ↦
            let same : a ≡ at true s.layout c n = e ∙ slot_at n in
            (omega (arith, same, inside), omega (arith, same, inside, is.size_pos))
      ]

  -- A chunk with headers whose memory is apart from the slots is fresh.
  pub headered-IsFresh :
      (slots : List ℕ)
      → ((a : ℕ) → 0 < tally a slots → Outside c.nodes (granule_count s.layout c * c.alloc_align) a)
      → ((a : ℕ) → tally a slots ≤ 1)
      → tally 0 slots ≡ 0
      → ((a : ℕ) → 0 < tally a slots → a ≤ size_max)
      → IsFresh s c slots
  headered-IsFresh slots apart once no_null below =
      let null_unlisted = not_listed 0 c.count (λ i lt e. at_ne_zero s.layout c is i lt e) in
      let separate : (a : ℕ) → tally a (slots_of s c c.count) + tally a slots ≤ 1 = λ a.
        elim (dec_lt 0 (tally a slots)) [
          | yes used ↦
              let unlisted = not_listed a c.count (λ i lt e. at-not-Outside s.layout c is i lt (
                subst (Outside c.nodes (granule_count s.layout c * c.alloc_align)) (sym e)
                  (apart a used))) in
              omega (arith, unlisted, once a)
          | no unused ↦ omega (arith, listed_once a c.count (omega arith))
        ] in
      let count =
        addresses-length (slots_of s c c.count ++ slots)
          (λ a. omega (arith, separate a, tally-append a (slots_of s c c.count) slots))
          (omega (arith, null_unlisted, no_null, tally-append 0 (slots_of s c c.count) slots))
          (λ a h. elim (dec_lt 0 (tally a slots)) [
            | yes used ↦ below a used
            | no unused ↦ omega (
              arith,
              is.top,
              listed_inside a c.count (omega arith)
                  (omega (arith, h, tally-append a (slots_of s c c.count) slots)),
            )
          ]) in
      record {
        apart = separate;
        not_null = null_unlisted;
        fits =
            omega (
              arith,
              count,
              length-append (slots_of s c c.count) slots,
              length-slots_of s c c.count,
            );
      }
