-- ===== src/Chunk/Moves.antt =====
-- `chunk_t`: the histories of chunk objects and their move assignment.
use allocazam.Prelude.{
  ℕ, ◌≡◌, ◌≢◌, refl, sym, ap, ◌==◌, ==_self, true, false, Bool-cases, inl, inr, ◌++◌, arith,
}
use allocazam.Layout.{Layout}
use allocazam.Chunk.{Chunk, put, release, move_construct, move_into, move_assign}
use allocazam.Chunk.Objects.{
  Objects, builds, moves, assigns, destroys, Reach, starts, goes, IsOwned,
}
use allocazam.Chunk.Steps.{builds-IsOwned, destroys-IsOwned, moves-IsOwned}

released-null : (c : Chunk) → (release true c).0.nodes ≡ 0
unfolding release
released-null c = elim (Bool-cases (c.nodes == 0)) [
  | inl null ↦ rw null (ground arith)
  | inr real ↦ rw real refl
]

assigns-IsOwned :
    (T : Layout) (o : Objects)
    → IsOwned o
    → (this other : ℕ)
    → IsOwned (record o {
      chunks = (move_assign true T this other o.chunks).0;
      deleted = (move_assign true T this other o.chunks).1 ++ o.deleted;
    })
unfolding move_assign
assigns-IsOwned T o is this other = elim (Bool-cases (this == other)) [
  | inl self ↦ rw self is
  | inr apart ↦ rw apart (
      moves-IsOwned
        (record o {
          chunks = put o.chunks this (release true (o.chunks this)).0;
          deleted = (release true (o.chunks this)).1 ++ o.deleted;
        })
        (destroys-IsOwned o is this) T this other
        (rw (==_self this) (released-null (o.chunks this))) (ground arith))
]

owned : (T : Layout) (o : Objects) → Reach T o → IsOwned o
owned T o starts = record {
  apart = λ x y d real. absurd (real refl);
  whole = λ x real. absurd (real refl);
  counted = λ p align p_real. inr (λ x has. p_real (sym has.0), refl);
}
owned T o (goes reach (builds this c empty real fresh)) =
    builds-IsOwned _ (owned T _ reach) this c empty real fresh
owned T o (goes reach (moves this other empty d)) =
    moves-IsOwned _ (owned T _ reach) T this other empty d
owned T o (goes reach (assigns this other)) = assigns-IsOwned T _ (owned T _ reach) this other
owned T o (goes reach (destroys this)) = destroys-IsOwned _ (owned T _ reach) this

-- The object has what the other one had, and those beside the two are as they were.
abbrev pub IsAssigned : (chunks new : ℕ → Chunk) (this other : ℕ) → Type 0
IsAssigned chunks new this other =
    (new this ≡ chunks other) × ((x : ℕ) → x ≢ this → x ≢ other → new x ≡ chunks x)

assigned :
    (T : Layout) (chunks : ℕ → Chunk) (this other : ℕ)
    → IsAssigned chunks (move_assign true T this other chunks).0 this other
unfolding move_assign move_into move_construct
assigned T chunks this other = elim (Bool-cases (this == other)) [
  | inl self ↦ rw self (ap chunks (ground arith), λ x d d'. refl)
  | inr apart ↦
      let back : (other == this) ≡ false = ground arith in
      (
        rw (apart, apart, back, ==_self this) refl,
        λ x d d'.
            let miss : (x == this) ≡ false = ground arith in
            let miss' : (x == other) ≡ false = ground arith in rw (apart, miss', miss) refl,
      )
]

-- Over any history of chunk objects that own their memory, no two objects have the same memory; an
-- object that has memory has the number of nodes, the alignment and the pointer that a constructor
-- gave it; and each block, a pointer with its alignment, went to `operator delete[]` as often as a
-- constructor got it, or, where one object has it, once less. An assignment, also of an object to
-- itself, gives the object what the other one had, and those beside the two are as they were.
pub Reach-IsOwned :
    (T : Layout) (o : Objects)
    → Reach T o
    → IsOwned o
      × ((this other : ℕ)
          → IsAssigned o.chunks (move_assign true T this other o.chunks).0 this other)
Reach-IsOwned T o reach = (owned T o reach, assigned T o.chunks)
