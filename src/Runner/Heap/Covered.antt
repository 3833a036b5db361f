-- ===== src/Runner/Heap/Covered.antt =====
-- The runs lie in the chunks, so there are no more of them than bytes.
use native.Mathlib.Decide.{ℕ_discrete}
use allocazam.Prelude.{
  ℕ, zero, suc, ◌+◌, ◌≤◌, ◌<◌, ◌≡◌, ◌≢◌, ap, List, [], ◌∷◌, length, ◌⊎◌, inl, inr, true, ltb, leb,
  ◌&&◌, arith, Bool-cases,
}
use allocazam.Pool.Tally.{tally, drop_one, tally-drop_one, length-drop_one}
use allocazam.Runner.Runs.{ChunkNode, chunk_bytes}
use allocazam.Runner.Calls.{in_chunks}
use allocazam.Runner.Heap.{Heap, Within, Inside}

-- The chunks hold the bytes of every run and a header behind it.
abbrev pub IsCovered : List ChunkNode → Heap → Type 0
IsCovered chunks H = (b : ℕ) → Within H b → in_chunks chunks b ≡ true

pub smaller-IsCovered :
    (chunks : List ChunkNode) (H H' : Heap) → IsCovered chunks H → Inside H' H → IsCovered chunks H'
smaller-IsCovered chunks H H' covered inside b w = covered b (inside b w)

-- The listed addresses all satisfy `P`.
abbrev All : (ℕ → Type 0) → List ℕ → Type 0
All P xs = (a : ℕ) → 0 < tally a xs → P a

abbrev IsOnce : List ℕ → Type 0
IsOnce xs = (a : ℕ) → tally a xs ≤ 1

-- As many more as an interval has.
interval-length :
    (P : ℕ → Type 0) (most : ℕ)
    → ((xs : List ℕ) → IsOnce xs → All P xs → length xs ≤ most)
    → (begin n : ℕ) (xs : List ℕ) → IsOnce xs
    → All (λ a. ((begin ≤ a) × (a < begin + n)) ⊎ P a) xs
    → length xs ≤ n + most
interval-length P most bound begin zero xs once all =
    let rest =
      bound xs once
        (λ a h. elim (all a h) [ inl (from, below) ↦ absurd (omega arith) | inr p ↦ p ]) in
    omega arith
interval-length P most bound begin (suc n) xs once all =
    elim (ℕ_discrete (tally (begin + n) xs) 0) [
      | yes none ↦
          let rest = interval-length P most bound begin n xs once (λ a h. elim (all a h) [
            | inl (from, below) ↦
                let other : a ≢ begin + n = λ e. omega (arith, ap (λ z. tally z xs) e) in
                inl (from, omega arith)
            | inr p ↦ inr p
          ]) in
          omega arith
      | no held ↦
          let less = drop_one (begin + n) xs in
          let rest =
            interval-length P most bound begin n less
              (λ a. omega (arith, tally-drop_one a (begin + n) xs (omega arith), once a))
              (λ a h.
                let counts = tally-drop_one a (begin + n) xs (omega arith) in
                elim (all a (omega arith)) [
                  | inl (from, below) ↦
                      let other : a ≢ begin + n = λ e. (let single = once a in ground arith) in
                      inl (from, omega arith)
                  | inr p ↦ inr p
                ]) in
          omega (arith, length-drop_one (begin + n) xs (omega arith))
    ]

-- Distinct addresses in the chunks are no more than the chunks have bytes.
pub in_chunks-length :
    (chunks : List ChunkNode) (xs : List ℕ)
    → IsOnce xs
    → ((a : ℕ) → 0 < tally a xs → in_chunks chunks a ≡ true)
    → length xs ≤ chunk_bytes chunks
unfolding in_chunks
in_chunks-length [] [] once all = omega arith
in_chunks-length [] (x ∷ xs) once all = absurd (let out = all x (ground arith) in cc)
in_chunks-length (c ∷ cs) xs once all =
    interval-length (λ a. in_chunks cs a ≡ true) (chunk_bytes cs) (in_chunks-length cs) c.begin
      c.bytes xs once
      (λ a h.
        let inside = all a h in
        elim (Bool-cases (leb c.begin a && ltb a (c.begin + c.bytes))) [
          | inl here ↦ inl (ground arith, ground arith)
          | inr elsewhere ↦ inr (rw elsewhere at inside)
        ])
