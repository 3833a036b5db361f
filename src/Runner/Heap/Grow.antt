-- ===== src/Runner/Heap/Grow.antt =====
-- A new chunk beside the others, and the platform that gives it.
use native.Mathlib.Decide.{ℕ_discrete, dec_lt, dec_le}
use allocazam.Prelude.{
  ℕ, ◌+◌, ◌-◌, ◌%◌, ◌≤◌, ◌<◌, ◌≡◌, ◌≢◌, refl, List, ◌∷◌, ◌⊎◌, inl, inr, true, false, ltb, leb, ◌&&◌,
  arith, Bool-cases,
}
use allocazam.Runner.Runs.{ChunkNode, Runner}
use allocazam.Runner.Calls.{in_chunks}
use allocazam.Runner.Chunks.{initialize_free_run}
use allocazam.Runner.Heap.{Heap, IsRunner, IsClients, clients-NoLink}
use allocazam.Runner.Heap.Grown.{Used}
use allocazam.Runner.Heap.Chunks.{IsNewChunk, extended, outside-word}
use allocazam.Runner.Heap.Covered.{IsCovered}

-- Bytes of a chunk are in the list that it begins, and those of the others stay.
pub in_chunks-first :
    (c : ChunkNode) (cs : List ChunkNode) (b : ℕ)
    → c.begin ≤ b
    → b < c.begin + c.bytes
    → in_chunks (c ∷ cs) b ≡ true
unfolding in_chunks
in_chunks-first c cs b from below =
    let test : (leb c.begin b && ltb b (c.begin + c.bytes)) ≡ true = ground arith in rw test refl

pub in_chunks-rest :
    (c : ChunkNode) (cs : List ChunkNode) (b : ℕ)
    → in_chunks cs b ≡ true
    → in_chunks (c ∷ cs) b ≡ true
unfolding in_chunks
in_chunks-rest c cs b inside = elim (Bool-cases (leb c.begin b && ltb b (c.begin + c.bytes))) [
  | inl here ↦ rw here refl
  | inr elsewhere ↦ rw elsewhere inside
]

-- A chunk that meets none of the chunks lies apart from all runs.
pub apart-outside :
    (H : Heap) (cs : List ChunkNode) (begin bytes : ℕ)
    → IsCovered cs H
    → 0 < bytes
    → ((b : ℕ) → begin ≤ b → b < begin + bytes → in_chunks cs b ≡ false)
    → (x : ℕ) → H.there x ≡ true
    → (x + H.size x + 16 ≤ begin) ⊎ (begin + bytes ≤ x)
apart-outside H cs begin bytes covered some_bytes apart x there =
    elim (dec_le (x + H.size x + 16) begin) [
      | yes below ↦ inl below
      | no reaches ↦ elim (dec_le (begin + bytes) x) [
        | yes behind ↦ inr behind
        | no meets ↦ absurd (elim (dec_lt x begin) [
          | yes lt ↦
              let inside = covered begin (x, there, omega arith, omega arith) in
              let out = apart begin (omega arith) (omega arith) in cc
          | no ge ↦
              let inside = covered x (x, there, omega arith, omega arith) in
              let out = apart x (omega arith) (omega arith) in cc
        ])
      ]
    ]

module _ (r : Runner) (H : Heap) (lists : ℕ → List ℕ) (c : ChunkNode) (is : IsRunner r H lists)
    (new : IsNewChunk H c.begin c.bytes) where
  abbrev E : Heap
  E = extended r H lists c is new

  large : (64 ≤ c.bytes) × (c.bytes % 16 ≡ 0)
  large = (new.large, new.whole)

  fresh : (x : ℕ) → H.there x ≡ true → (x ≢ c.begin) × (x ≢ c.begin + (c.bytes - 16))
  fresh x there = elim (new.outside x there) [
    | inl below ↦ (omega arith, omega arith)
    | inr above ↦ (omega (arith, large), omega (arith, large))
  ]

  pub extended-used : (a size : ℕ) → size ≢ 0 → Used E a size → Used H a size
  extended-used a size some_bytes (there, used, same) = ground arith

  pub extended-uses : (a size : ℕ) → Used H a size → Used E a size
  extended-uses a size (there, used, same) = let (d, d') = fresh a there in ground arith

  pub extended-IsCovered : (cs : List ChunkNode) → IsCovered cs H → IsCovered (c ∷ cs) E
  extended-IsCovered cs covered b (x, there, from, below) =
      elim (ℕ_discrete x (c.begin + (c.bytes - 16))) [
        | yes last ↦
            let none : E.size x ≡ 0 = ground arith in
            in_chunks-first c cs b (omega arith) (omega (arith, large))
        | no d ↦ elim (ℕ_discrete x c.begin) [
          | yes first ↦
              let all : E.size x ≡ c.bytes - 16 = ground arith in
              in_chunks-first c cs b (omega arith) (omega (arith, large))
          | no d' ↦
              let old : H.there x ≡ true = ground arith in
              let same : E.size x ≡ H.size x = ground arith in
              in_chunks-rest c cs b (covered b (x, old, from, omega arith))
        ]
      ]

  pub extended-memory : (b : ℕ) → IsClients H 0 b → (initialize_free_run r c).memory b ≡ r.memory b
  unfolding initialize_free_run
  extended-memory b cl =
      outside-word r H lists c is new b
        (elim (new.outside cl.at cl.there) [
          | inl below ↦ inl (omega (arith, cl.below))
          | inr above ↦ inr (omega (arith, cl.from))
        ])
        (clients-NoLink r H lists 0 is b cl)
