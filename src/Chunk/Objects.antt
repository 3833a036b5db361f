-- ===== src/Chunk/Objects.antt =====
-- `chunk_t`: chunk objects that own their memory, by address, and what goes on with them.
use native.Mathlib.Decide.{ℕ_discrete}
use allocazam.Prelude.{
  ℕ, suc, ◌+◌, ◌<◌, ◌≡◌, ◌≢◌, refl, ap, ◌∙◌, ◌==◌, true, false, Bool, Bool-cases, ◌⊎◌, inl, inr,
  List, [], ◌∷◌, ◌++◌, ◌&&◌, if◌then◌else◌, arith,
}
use allocazam.Layout.{Layout}
use allocazam.Chunk.{Chunk, put, release, move_into, move_assign}

-- Chunk objects that own their memory, by address; a chunk without nodes may also be storage that
-- holds no object. With the chunks that the constructors gave memory, and the pointers and
-- alignments that went to `operator delete[]`.
pub record Objects : Type 0 where
  pub chunks : ℕ → Chunk
  pub given : List Chunk
  pub deleted : List (ℕ × ℕ)

-- How often a constructor gave the block at `p` of alignment `align`, and how often it was deleted.
abbrev pub is_block : (p align nodes alloc_align : ℕ) → Bool
is_block p align nodes alloc_align = (nodes == p) && (alloc_align == align)

abbrev pub built : (p align : ℕ) → List Chunk → ℕ
built p align [] = 0
built p align (c ∷ cs) =
    (if is_block p align c.nodes c.alloc_align then 1 else 0) + built p align cs

abbrev pub times : (p align : ℕ) → List (ℕ × ℕ) → ℕ
times p align [] = 0
times p align ((nodes, alloc_align) ∷ bs) =
    (if is_block p align nodes alloc_align then 1 else 0) + times p align bs

abbrev pub copies : Chunk → List Chunk → ℕ
copies c [] = 0
copies c (x ∷ xs) =
    (if (x.nodes == c.nodes) && (x.alloc_align == c.alloc_align) && (x.count == c.count)
      then 1
      else 0)
    + copies c xs

-- A step on the objects: a constructor with memory, which no object has; a move constructor, in
-- storage without a chunk; a move assignment, also to itself; or a destructor.
pub data Step (T : Layout) (o : Objects) : Objects → Type 0 where
  builds :
      (this : ℕ) (c : Chunk)
      → (o.chunks this).nodes ≡ 0
      → c.nodes ≢ 0
      → ((x : ℕ) → (o.chunks x).nodes ≢ c.nodes)
      → Step T o (record o { chunks = put o.chunks this c; given = c ∷ o.given })
  moves :
      (this other : ℕ)
      → (o.chunks this).nodes ≡ 0
      → this ≢ other
      → Step T o (record o { chunks = move_into T this other o.chunks })
  assigns :
      (this other : ℕ)
      → Step T o (record o {
        chunks = (move_assign true T this other o.chunks).0;
        deleted = (move_assign true T this other o.chunks).1 ++ o.deleted;
      })
  destroys :
      (this : ℕ)
      → Step T o (record o {
        chunks = put o.chunks this (release true (o.chunks this)).0;
        deleted = (release true (o.chunks this)).1 ++ o.deleted;
      })

abbrev pub no_chunk : Chunk
no_chunk = record { count = 0; alloc_align = 8; nodes = 0 }

-- From storage without chunks.
pub data Reach (T : Layout) : Objects → Type 0 where
  starts : Reach T (record { chunks = λ x. no_chunk; given = []; deleted = [] })
  goes : {o o' : Objects} → Reach T o → Step T o o' → Reach T o'

-- The chunk has the block.
abbrev pub IsBlock : (c : Chunk) (p align : ℕ) → Type 0
IsBlock c p align = (c.nodes ≡ p) × (c.alloc_align ≡ align)

-- No two objects have the same memory, an object with memory is as the constructor made it, and each
-- block was deleted as often as it was given, or once less and some object has it.
pub record IsOwned (o : Objects) : Type 0 where
  pub apart : (x y : ℕ) → x ≢ y → (o.chunks x).nodes ≢ 0 → (o.chunks x).nodes ≢ (o.chunks y).nodes
  pub whole : (x : ℕ) → (o.chunks x).nodes ≢ 0 → 0 < copies (o.chunks x) o.given
  pub counted :
      (p align : ℕ)
      → p ≢ 0
      → ((x : ℕ) × IsBlock (o.chunks x) p align
          × (built p align o.given ≡ suc (times p align o.deleted)))
        ⊎ (((x : ℕ) → ¬ (IsBlock (o.chunks x) p align))
            × (built p align o.given ≡ times p align o.deleted))

pub put_cases :
    (chunks : ℕ → Chunk) (this : ℕ) (c : Chunk) (x : ℕ)
    → ((x ≡ this) × (put chunks this c x ≡ c)) ⊎ ((x ≢ this) × (put chunks this c x ≡ chunks x))
put_cases chunks this c x = elim (ℕ_discrete x this) [
  | yes e ↦ let hit : (x == this) ≡ true = ground arith in inl (e, rw hit refl)
  | no ne ↦ let miss : (x == this) ≡ false = ground arith in inr (ne, rw miss refl)
]

-- A chunk in place of an equal one has its block.
pub same-has : {p align : ℕ} {c c' : Chunk} → c ≡ c' → IsBlock c' p align → IsBlock c p align
same-has e (at_p, aligned) = (ap (λ z. z.nodes) e ∙ at_p, ap (λ z. z.alloc_align) e ∙ aligned)

pub block_cases :
    (p align nodes alloc_align : ℕ)
    → ((nodes ≡ p) × (alloc_align ≡ align) × (is_block p align nodes alloc_align ≡ true))
      ⊎ (((nodes ≡ p) → alloc_align ≢ align) × (is_block p align nodes alloc_align ≡ false))
block_cases p align nodes alloc_align = elim (Bool-cases (is_block p align nodes alloc_align)) [
  | inl hit ↦ inl (ground arith, ground arith, hit)
  | inr miss ↦ inr (λ e e'. ground arith, miss)
]
