-- ===== src/Pool/Noheap.antt =====
-- The pool over a span of the caller: its nodes lie one behind the other.
use native.Mathlib.Nat.{suc-mul, div-mul-le_self, div-le_self, le-div_iff_mul-le, add-mod, zero-mod}
use native.Mathlib.Decide.{ℕ_discrete, dec_le}
use allocazam.Prelude.{
  ℕ, zero, suc, ◌+◌, ◌-◌, ◌*◌, ◌/◌, ◌%◌, ◌^◌, ◌≤◌, ◌<◌, ◌≡◌, ◌≢◌, refl, ap, ◌∙◌, List, [], ◌∷◌,
  ◌++◌, append-nil, false, ◌⊎◌, inl, inr, none, some, arith, ◌==◌, length,
}
use allocazam.Word.{size_max, wrap}
use allocazam.Word.Pow2.{std_align, pad_of, pad_of-mod, std_align-eq}
use allocazam.Layout.{IsLayout}
use allocazam.Memory.{Memory}
use allocazam.Exception.{Exception, invalid_argument, ok, throw}
use allocazam.Chunk.{Chunk, at, sizeof_node, node_alignment, construct_external}
use allocazam.Chunk.Geometry.{sizeof_node_bounds, sizeof_node_multiple}
use allocazam.Pool.{Setup, Pool, defaults, add_external_chunk, construct_noheap, push_slots}
use allocazam.Pool.Tally.{tally}
use allocazam.Pool.Invariant.{IsPool, same-IsPool}
use allocazam.Pool.Grow.{slots_of, IsFresh, push_slots-IsPool, push_slots-capacity}
use allocazam.Pool.Reachable.{fresh, fresh-IsSound}

-- The first `n` slots of `unit` bytes from `base` on, the last one in front.
abbrev pub row : (base unit n : ℕ) → List ℕ
row base unit zero = []
row base unit (suc n) = (base + n * unit) ∷ row base unit n

slots_of-row :
    (s : Setup) (c : Chunk) (n : ℕ)
    → s.headers ≡ false
    → slots_of s c n ≡ row c.nodes (sizeof_node s.layout) n
unfolding at
slots_of-row s c zero off = refl
slots_of-row s c (suc n) off =
    rw off (ap (λ xs. (c.nodes + n * sizeof_node s.layout) ∷ xs) (slots_of-row s c n off))

module _ (base unit : ℕ) (pos : 0 < unit) where
  row_below : (a n : ℕ) → base + n * unit ≤ a → tally a (row base unit n) ≡ 0
  row_below a zero le = refl
  row_below a (suc n) le =
      ground (arith, suc-mul n unit, row_below a n (omega (arith, suc-mul n unit)))

  row_once : (a n : ℕ) → tally a (row base unit n) ≤ 1
  row_once a zero = omega arith
  row_once a (suc n) = elim (ℕ_discrete a (base + n * unit)) [
    | yes e ↦ ground (arith, row_below a n (omega (arith, e)))
    | no ne ↦ ground (arith, row_once a n)
  ]

  row_inside : (a n : ℕ) → 0 < tally a (row base unit n) → (base ≤ a) × (a + unit ≤ base + n * unit)
  row_inside a zero held = absurd (omega arith)
  row_inside a (suc n) held = elim (ℕ_discrete a (base + n * unit)) [
    | yes e ↦ (omega arith, omega (arith, suc-mul n unit))
    | no ne ↦
        let before = row_inside a n (ground arith) in
        (before.0, omega (arith, before.1, suc-mul n unit))
  ]

row_below_null : (base unit n : ℕ) → base ≢ 0 → tally 0 (row base unit n) ≡ 0
row_below_null base unit zero real = refl
row_below_null base unit (suc n) real = ground (arith, row_below_null base unit n real)

-- A row of nodes that lies at a real address and below the end of the address space is fresh to a
-- pool without chunks.
row-IsFresh :
    (s : Setup) (base n : ℕ)
    → s.headers ≡ false
    → 0 < sizeof_node s.layout
    → base ≢ 0
    → base + n * sizeof_node s.layout ≤ size_max
    → n ≤ size_max
    → IsFresh s (construct_external s.layout base n) []
unfolding construct_external
row-IsFresh s base n off pos real top small =
    let unit = sizeof_node s.layout in
    let e = slots_of-row s (construct_external s.layout base n) n off in
    record {
      apart = λ a. rw e (omega (arith, row_once base unit pos a n));
      not_null = rw e (row_below_null base unit n real);
      fits = omega arith;
    }

multiples :
    (base unit alignment : ℕ)
    → base % alignment ≡ 0
    → unit % alignment ≡ 0
    → (n : ℕ) → (base + n * unit) % alignment ≡ 0
multiples base unit alignment aligned whole zero = ground (arith, aligned)
multiples base unit alignment aligned whole (suc n) =
    let before = multiples base unit alignment aligned whole n in
    let next : base + suc n * unit ≡ base + n * unit + unit = omega (arith, suc-mul n unit) in
    rw (next, add-mod (base + n * unit) unit alignment, before, whole) (zero-mod alignment)

row_aligned :
    (base unit alignment : ℕ)
    → base % alignment ≡ 0
    → unit % alignment ≡ 0
    → (a n : ℕ) → 0 < tally a (row base unit n)
    → a % alignment ≡ 0
row_aligned base unit alignment aligned whole a zero held = absurd (omega arith)
row_aligned base unit alignment aligned whole a (suc n) held =
    elim (ℕ_discrete a (base + n * unit)) [
      | yes e ↦ rw e (multiples base unit alignment aligned whole n)
      | no ne ↦ row_aligned base unit alignment aligned whole a n (ground arith)
    ]

module _ (s : Setup) (self base n : ℕ) (mem : Memory) (off : s.headers ≡ false) where
  add_external-IsPool :
      0 < sizeof_node s.layout
      → base ≢ 0
      → base + n * sizeof_node s.layout ≤ size_max
      → n ≤ size_max
      → let nodes = row base (sizeof_node s.layout) n in
        IsPool (add_external_chunk s (defaults s self mem) base n) nodes [] [] nodes
  unfolding add_external_chunk construct_external
  add_external-IsPool pos real top small =
      let c = construct_external s.layout base n in
      let p = record (defaults s self mem) { chunks = c ∷ [] } in
      let empty : IsPool p [] [] [] [] =
        same-IsPool {p = fresh s self 0 mem} refl refl refl refl refl
          (fresh-IsSound s self 0 mem (omega arith)).pool in
      let pushed =
        push_slots-IsPool s c n p (row-IsFresh s base n off pos real top small) (omega arith)
          empty in
      let cap : wrap ((push_slots s c n p).capacity + n) ≡ n + p.capacity =
        omega (arith, push_slots-capacity s c n p) in
      let listed : slots_of s c n ++ [] ≡ row base (sizeof_node s.layout) n =
        append-nil (slots_of s c n) ∙ slots_of-row s c n off in
      rw cap (rw listed at pushed)

length-row : (base unit n : ℕ) → length (row base unit n) ≡ n
length-row base unit zero = refl
length-row base unit (suc n) = ap suc (length-row base unit n)

-- For a value type of at most 2^60 bytes, the constructor over a real span inside the address space
-- gives a well-formed pool with every node that fits behind the padding, all of them free, aligned
-- and inside the span; or, exactly where not one fits, an exception leaves it.
pub construct_noheap-cases :
    (s : Setup) (self begin size : ℕ) (mem : Memory)
    → IsLayout s.layout
    → s.layout.size ≤ 2 ^ 60
    → s.headers ≡ false
    → begin ≢ 0
    → begin + size ≤ size_max
    → let unit = sizeof_node s.layout in
      let pad = pad_of (node_alignment s.layout) begin in
      ((why : Exception) × (construct_noheap s self begin size mem ≡ throw why)
        × (size < pad + unit))
      ⊎ ((p : Pool) × (nodes : List ℕ) × (construct_noheap s self begin size mem ≡ ok p)
          × (length nodes ≡ (size - pad) / unit)
          × (0 < length nodes)
          × IsPool p nodes [] [] nodes
          × ((a : ℕ)
              → 0 < tally a nodes
              → (begin ≤ a) × (a + unit ≤ begin + size) × (a % node_alignment s.layout ≡ 0)))
unfolding construct_noheap
construct_noheap-cases s self begin size mem lay small off real top =
    let unit = sizeof_node s.layout in
    let align = node_alignment s.layout in
    let pad = pad_of align begin in
    let bounds = sizeof_node_bounds s.layout lay small in
    let room = std_align-eq align unit begin size in
    elim (dec_le (pad + unit) size) [
      | no none_fits ↦
          let unaligned : std_align align unit begin size ≡ none = ground (arith, room) in
          inl (elim (ℕ_discrete size 0) [
            | yes empty ↦ (
              invalid_argument "allocator backing buffer must not be empty",
              rw (construct_noheap, empty) refl,
              omega arith,
            )
            | no some_bytes ↦
                let test : (size == 0) ≡ false = ground arith in
                (
                  invalid_argument "allocator backing buffer cannot satisfy node alignment",
                  rw (construct_noheap, test, unaligned) refl,
                  omega arith,
                )
          ])
      | yes fits ↦
          let n = (size - pad) / unit in
          let whole : n * unit ≤ size - pad = div-mul-le_self (size - pad) unit in
          let some_fit : 0 < n =
            (le-div_iff_mul-le {k = unit} {x = 1} {y = size - pad} (omega arith)).1 (omega arith) in
          let aligned : std_align align unit begin size ≡ some (begin + pad, size - pad) =
            ground (arith, room) in
          let test : (size == 0) ≡ false = ground (arith, bounds) in
          let test_count : ((size - pad) / unit == 0) ≡ false = ground (arith, some_fit) in
          let pos : 0 < unit = omega arith in
          let base_aligned = pad_of-mod align begin (omega arith) in
          let unit_aligned = sizeof_node_multiple s.layout lay small in
          inr (
            add_external_chunk s (defaults s self mem) (begin + pad) n,
            row (begin + pad) unit n,
            rw (construct_noheap, test, aligned, test_count) refl,
            length-row (begin + pad) unit n,
            rw (length-row (begin + pad) unit n) some_fit,
            add_external-IsPool s self (begin + pad) n mem off pos (omega arith) (omega arith)
                (omega (arith, div-le_self (size - pad) unit)),
            λ a held.
                let inside = row_inside (begin + pad) unit pos a n held in
                (
                  omega (arith, inside),
                  omega (arith, inside),
                  row_aligned (begin + pad) unit align base_aligned unit_aligned a n held,
                ),
          )
    ]
