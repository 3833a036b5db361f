-- ===== src/Pool/Heap.antt =====
-- The memory that a pool gets from the aligned `operator new[]`, over all of its calls.
use native.Mathlib.Decide.{ℕ_discrete, dec_lt}
use allocazam.Prelude.{
  ℕ, zero, suc, ◌+◌, ◌^◌, ◌≤◌, ◌<◌, ◌≡◌, ◌∙◌, List, [], ◌∷◌, some, ◌⊎◌, inl, inr, arith, length,
}
use allocazam.Word.{size_max, size_mod}
use allocazam.Word.Pow2.{IsPow2}
use allocazam.Layout.{IsLayout}
use allocazam.Chunk.{sizeof_node}
use allocazam.Chunk.Build.{IsNewAligned}
use allocazam.Chunk.Outside.{Outside}
use allocazam.Pool.{Setup, Pool}
use allocazam.Pool.Tally.{tally, drop_one, tally-drop_one, length-drop_one}

-- A value type of at most 2^60 bytes, pages of a power of two, and calls of `operator new[]` each of
-- which keeps its promises and gives memory apart from what an earlier one gave.
pub record IsHeap (s : Setup) : Type 0 where
  pub lay : IsLayout s.layout
  pub small : s.layout.size ≤ 2 ^ 60
  pub page_pow2 : IsPow2 s.page
  pub new : (k : ℕ) → IsNewAligned (s.news k)
  pub apart :
      (j k : ℕ)
      → j < k
      → (bytes bytes' alignment alignment' base base' : ℕ) → s.news j bytes alignment ≡ some base
      → s.news k bytes' alignment' ≡ some base'
      → (base + bytes ≤ base') ⊎ (base' + bytes' ≤ base)

-- A node at the address lies in memory that one of the first `calls` calls gave.
pub record IsGiven (s : Setup) (calls a : ℕ) : Type 0 where
  pub call : ℕ
  pub bytes : ℕ
  pub alignment : ℕ
  pub base : ℕ
  pub earlier : call < calls
  pub answer : s.news call bytes alignment ≡ some base
  pub from_base : base ≤ a
  pub below_top : a < base + bytes
  pub whole : a + sizeof_node s.layout ≤ base + bytes

-- The nodes at the slots do not overlap.
abbrev pub IsSpaced : Setup → List ℕ → Type 0
IsSpaced s slots =
    (a b : ℕ) → 0 < tally a slots → 0 < tally b slots → a < b → a + sizeof_node s.layout ≤ b

pub record IsGrown (s : Setup) (p : Pool) (slots : List ℕ) : Type 0 where
  pub page : p.page_size ≡ s.page
  pub growth : p.next_growth ≤ size_max
  pub given : (a : ℕ) → 0 < tally a slots → IsGiven s p.calls a
  pub spaced : IsSpaced s slots

-- A step that calls nothing leaves the pool grown as far as it was.
pub same-IsGrown :
    {s : Setup} {p q : Pool} {slots : List ℕ}
    → q.page_size ≡ p.page_size
    → q.next_growth ≡ p.next_growth
    → q.calls ≡ p.calls
    → IsGrown s p slots
    → IsGrown s q slots
same-IsGrown page growth calls grown = record {
  page = page ∙ grown.page;
  growth = rw growth grown.growth;
  given = λ a h. rw calls (grown.given a h);
  spaced = grown.spaced;
}

module _ {s : Setup} (heap : IsHeap s) where
  -- What the next call gives is apart from all of it.
  pub IsGiven-Outside :
      (calls a bytes alignment base : ℕ)
      → IsGiven s calls a
      → s.news calls bytes alignment ≡ some base
      → Outside base bytes a
  IsGiven-Outside calls a bytes alignment base g e =
      elim (heap.apart g.call calls g.earlier g.bytes bytes g.alignment alignment g.base base
        g.answer e) [
          | inl before ↦ inl (omega (arith, g.below_top, before))
          | inr after ↦ inr (omega (arith, g.from_base, after))
        ]

  -- And leaves room for a whole node between them.
  pub IsGiven-apart :
      (calls a b bytes alignment base : ℕ)
      → IsGiven s calls a
      → s.news calls bytes alignment ≡ some base
      → base ≤ b
      → b + sizeof_node s.layout ≤ base + bytes
      → (a + sizeof_node s.layout ≤ b) ⊎ (b + sizeof_node s.layout ≤ a)
  IsGiven-apart calls a b bytes alignment base g e from top =
      elim (heap.apart g.call calls g.earlier g.bytes bytes g.alignment alignment g.base base
        g.answer e) [
          | inl before ↦ inl (omega (arith, g.whole, before))
          | inr after ↦ inr (omega (arith, g.from_base, after))
        ]

  pub IsGiven-le : (calls a : ℕ) → IsGiven s calls a → a ≤ size_max
  IsGiven-le calls a g =
      omega (arith, g.below_top, (heap.new g.call).fits g.bytes g.alignment g.base g.answer)

pub IsGiven-mono : {s : Setup} {a j k : ℕ} → j ≤ k → IsGiven s j a → IsGiven s k a
IsGiven-mono le g = record {
  call = g.call;
  bytes = g.bytes;
  alignment = g.alignment;
  base = g.base;
  earlier = omega (arith, g.earlier, le);
  answer = g.answer;
  from_base = g.from_base;
  below_top = g.below_top;
  whole = g.whole;
}

-- Different numbers below `m` are at most `m` many.
distinct-length :
    (m : ℕ) (xs : List ℕ)
    → ((a : ℕ) → tally a xs ≤ 1)
    → ((a : ℕ) → 0 < tally a xs → a < m)
    → length xs ≤ m
distinct-length zero [] once below = omega arith
distinct-length zero (x ∷ xs) once below = absurd (ground (arith, below x))
distinct-length (suc m) xs once below = elim (dec_lt 0 (tally m xs)) [
  | no out ↦
      let rest = distinct-length m xs once (λ a h. elim (ℕ_discrete a m) [
        | yes e ↦ absurd (out (rw e at h))
        | no ne ↦ omega (arith, below a h)
      ]) in
      omega (arith, rest)
  | yes used ↦
      let rest =
        distinct-length m (drop_one m xs) (λ a. omega (arith, once a, tally-drop_one a m xs used))
          (λ a h. elim (ℕ_discrete a m) [
            | yes e ↦ absurd (ground (arith, once a, tally-drop_one a m xs used))
            | no ne ↦ omega (arith, below a (omega (arith, tally-drop_one a m xs used)))
          ]) in
      omega (arith, rest, length-drop_one m xs used)
]

-- Different addresses are no more than `size_t` can count.
pub addresses-length :
    (xs : List ℕ)
    → ((a : ℕ) → tally a xs ≤ 1)
    → tally 0 xs ≡ 0
    → ((a : ℕ) → 0 < tally a xs → a ≤ size_max)
    → length xs ≤ size_max
addresses-length xs once no_null below = omega (
  arith,
  distinct-length size_mod (0 ∷ xs) (λ a. ground (arith, once a, no_null))
      (λ a h. ground (arith, below a)),
)
