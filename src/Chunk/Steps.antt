-- ===== src/Chunk/Steps.antt =====
-- `chunk_t`: what the construction, the move and the release of a chunk leave of the objects.
use allocazam.Prelude.{
  ℕ, ◌<◌, ◌≡◌, ◌≢◌, refl, sym, ap, subst, ◌∙◌, ◌==◌, ==_self, true, false, Bool-cases, ◌⊎◌, inl,
  inr, ◌∷◌, ◌++◌, if◌then◌else◌, arith,
}
use allocazam.Layout.{Layout}
use allocazam.Chunk.{Chunk, put, release, move_construct, move_into}
use allocazam.Chunk.Objects.{Objects, is_block, copies, IsOwned, put_cases, same-has, block_cases}

module _ (o : Objects) (is : IsOwned o) where
  pub builds-IsOwned :
      (this : ℕ) (c : Chunk)
      → (o.chunks this).nodes ≡ 0
      → c.nodes ≢ 0
      → ((x : ℕ) → (o.chunks x).nodes ≢ c.nodes)
      → IsOwned (record o { chunks = put o.chunks this c; given = c ∷ o.given })
  builds-IsOwned this c empty real fresh = record {
    apart = λ x y d some_nodes same. elim (put_cases o.chunks this c x) [
      | inl (e, ex) ↦ elim (put_cases o.chunks this c y) [
        | inl (e', ey) ↦ d (e ∙ sym e')
        | inr (ne', ey) ↦
            fresh y (let k = ap (λ z. z.nodes) ex in let k' = ap (λ z. z.nodes) ey in cc)
      ]
      | inr (ne, ex) ↦
          let k = ap (λ z. z.nodes) ex in
          elim (put_cases o.chunks this c y) [
            | inl (e', ey) ↦ fresh x (let k' = ap (λ z. z.nodes) ey in cc)
            | inr (ne', ey) ↦
                is.apart x y d (λ z. some_nodes (k ∙ z)) (let k' = ap (λ z. z.nodes) ey in cc)
          ]
    ];
    whole = λ x some_nodes. elim (put_cases o.chunks this c x) [
      | inl (e, ex) ↦ rw ex (ground arith)
      | inr (ne, ex) ↦
          let old = is.whole x (λ z. some_nodes (ap (λ z. z.nodes) ex ∙ z)) in
          subst (λ z. 0 < copies z (c ∷ o.given)) (sym ex) (ground (arith, old))
    ];
    counted = λ p align p_real. elim (is.counted p align p_real) [
      | inl (x, (at_p, aligned), n) ↦ elim (put_cases o.chunks this c x) [
        | inl (e, ex) ↦ absurd (p_real (let k = ap (λ z. (o.chunks z).nodes) e in cc))
        | inr (ne, ex) ↦
            let miss : is_block p align c.nodes c.alloc_align ≡ false =
              elim (block_cases p align c.nodes c.alloc_align) [
                | inl (e, _, _) ↦ absurd (fresh x (at_p ∙ sym e))
                | inr (_, miss) ↦ miss
              ] in
            inl (x, same-has ex (at_p, aligned), rw miss (omega (arith, n)))
      ]
      | inr (none, n) ↦ elim (block_cases p align c.nodes c.alloc_align) [
        | inl (e, e', hit) ↦ elim (put_cases o.chunks this c this) [
          | inl (_, et) ↦ inl (this, same-has et (e, e'), rw hit (omega (arith, n)))
          | inr (ne, _) ↦ absurd (ne refl)
        ]
        | inr (other, miss) ↦ inr (
          λ x has. elim (put_cases o.chunks this c x) [
            | inl (e, ex) ↦ let (at_p, aligned) = same-has (sym ex) has in other at_p aligned
            | inr (ne, ex) ↦ none x (same-has (sym ex) has)
          ],
          rw miss (omega (arith, n)),
        )
      ]
    ];
  }

  -- The chunks are the same ones, that at `y` now at `back y`, or null.
  sourced-IsOwned :
      (new : ℕ → Chunk) (back : ℕ → ℕ)
      → ((x : ℕ) → ((new x).nodes ≡ 0) ⊎ ((y : ℕ) × (new x ≡ o.chunks y) × (x ≡ back y)))
      → ((y : ℕ) → (o.chunks y).nodes ≢ 0 → new (back y) ≡ o.chunks y)
      → IsOwned (record o { chunks = new })
  sourced-IsOwned new back from to = record {
    apart = λ x y d some_nodes same. elim (from x) [
      | inl null ↦ some_nodes null
      | inr (x', ex, bx) ↦ elim (from y) [
        | inl null ↦ some_nodes (same ∙ null)
        | inr (y', ey, by) ↦
            let nx = ap (λ z. z.nodes) ex in
            let ny = ap (λ z. z.nodes) ey in
            is.apart x' y' (λ e. d (bx ∙ ap back e ∙ sym by)) (λ z. some_nodes (nx ∙ z))
              (sym nx ∙ same ∙ ny)
      ]
    ];
    whole = λ x some_nodes. elim (from x) [
      | inl null ↦ absurd (some_nodes null)
      | inr (y, e, _) ↦
          subst (λ z. 0 < copies z o.given) (sym e)
            (is.whole y (λ z. some_nodes (ap (λ z. z.nodes) e ∙ z)))
    ];
    counted = λ p align p_real. elim (is.counted p align p_real) [
      | inl (y, has, n) ↦ inl (back y, same-has (to y (λ z. p_real (sym has.0 ∙ z))) has, n)
      | inr (none, n) ↦ inr (
        λ x has. elim (from x) [
          | inl null ↦ p_real (sym has.0 ∙ null)
          | inr (y, e, _) ↦ none y (same-has (sym e) has)
        ],
        n,
      )
    ];
  }

  dropped-IsOwned :
      (this : ℕ) (c : Chunk)
      → c.nodes ≡ 0
      → (o.chunks this).nodes ≢ 0
      → IsOwned (record o {
        chunks = put o.chunks this c;
        deleted = ((o.chunks this).nodes, (o.chunks this).alloc_align) ∷ o.deleted;
      })
  dropped-IsOwned this c empty real = record {
    apart = λ x y d some_nodes same. elim (put_cases o.chunks this c x) [
      | inl (_, ex) ↦ some_nodes (ap (λ z. z.nodes) ex ∙ empty)
      | inr (_, ex) ↦
          let nx = ap (λ z. z.nodes) ex in
          elim (put_cases o.chunks this c y) [
            | inl (_, ey) ↦ some_nodes (same ∙ ap (λ z. z.nodes) ey ∙ empty)
            | inr (_, ey) ↦
                is.apart x y d (λ z. some_nodes (nx ∙ z)) (sym nx ∙ same ∙ ap (λ z. z.nodes) ey)
          ]
    ];
    whole = λ x some_nodes. elim (put_cases o.chunks this c x) [
      | inl (_, ex) ↦ absurd (some_nodes (ap (λ z. z.nodes) ex ∙ empty))
      | inr (_, ex) ↦
          subst (λ z. 0 < copies z o.given) (sym ex)
            (is.whole x (λ z. some_nodes (ap (λ z. z.nodes) ex ∙ z)))
    ];
    counted = λ p align p_real.
        let old = o.chunks this in
        elim (block_cases p align old.nodes old.alloc_align) [
          | inl (e, e', hit) ↦ elim (is.counted p align p_real) [
            | inl (_, _, n) ↦ inr (
              λ x has. elim (put_cases o.chunks this c x) [
                | inl (_, ex) ↦ p_real (sym has.0 ∙ ap (λ z. z.nodes) ex ∙ empty)
                | inr (ne, ex) ↦
                    is.apart this x (λ z. ne (sym z)) real (e ∙ sym has.0 ∙ ap (λ z. z.nodes) ex)
              ],
              rw hit (omega (arith, n)),
            )
            | inr (none, _) ↦ absurd (none this (e, e'))
          ]
          | inr (other, miss) ↦ elim (is.counted p align p_real) [
            | inl (x, has, n) ↦ elim (put_cases o.chunks this c x) [
              | inl (at_this, _) ↦
                  let (e, e') = same-has (ap o.chunks (sym at_this)) has in absurd (other e e')
              | inr (_, ex) ↦ inl (x, same-has ex has, rw miss (omega (arith, n)))
            ]
            | inr (none, n) ↦ inr (
              λ x has. elim (put_cases o.chunks this c x) [
                | inl (_, ex) ↦ p_real (sym has.0 ∙ ap (λ z. z.nodes) ex ∙ empty)
                | inr (_, ex) ↦ none x (same-has (sym ex) has)
              ],
              rw miss (omega (arith, n)),
            )
          ]
        ];
  }

  pub destroys-IsOwned :
      (this : ℕ)
      → IsOwned (record o {
        chunks = put o.chunks this (release true (o.chunks this)).0;
        deleted = (release true (o.chunks this)).1 ++ o.deleted;
      })
  unfolding release
  destroys-IsOwned this = elim (Bool-cases ((o.chunks this).nodes == 0)) [
    | inr real ↦
        rw real (
          dropped-IsOwned this (record (o.chunks this) { nodes = 0; count = 0 }) refl
            (ground arith))
    | inl null ↦ rw null (
        sourced-IsOwned (put o.chunks this (o.chunks this)) (λ x. x) (λ x. inr (x, kept x, refl))
          (λ x real. kept x))
  ]
    where
      kept : (x : ℕ) → put o.chunks this (o.chunks this) x ≡ o.chunks x
      kept x = elim (put_cases o.chunks this (o.chunks this) x) [
        | inl (e, ex) ↦ ex ∙ ap o.chunks (sym e)
        | inr (_, ex) ↦ ex
      ]

  pub moves-IsOwned :
      (T : Layout) (this other : ℕ)
      → (o.chunks this).nodes ≡ 0
      → this ≢ other
      → IsOwned (record o { chunks = move_into T this other o.chunks })
  unfolding move_into move_construct
  moves-IsOwned T this other empty d =
      sourced-IsOwned (move_into T this other o.chunks) (λ y. if y == other then this else y) from
        to
    where
      from :
          (x : ℕ)
          → ((move_into T this other o.chunks x).nodes ≡ 0)
            ⊎ ((y : ℕ) × (move_into T this other o.chunks x ≡ o.chunks y)
                × (x ≡ (if y == other then this else y)))
      from x = elim (Bool-cases (x == other)) [
        | inl left ↦ inl (rw left refl)
        | inr stays ↦ elim (Bool-cases (x == this)) [
          | inl taken ↦ inr (other, rw (stays, taken) refl, rw (==_self other) (ground arith))
          | inr kept ↦ inr (x, rw (stays, kept) refl, rw stays refl)
        ]
      ]

      to :
          (y : ℕ)
          → (o.chunks y).nodes ≢ 0
          → move_into T this other o.chunks (if y == other then this else y) ≡ o.chunks y
      to y real = elim (Bool-cases (y == other)) [
        | inl e ↦
            let miss : (this == other) ≡ false = ground arith in
            rw (e, miss, ==_self this) (ap o.chunks (ground arith))
        | inr ne ↦
            let miss : (y == this) ≡ false = elim (Bool-cases (y == this)) [
              | inl e ↦ absurd (real (ap (λ z. (o.chunks z).nodes) (ground arith) ∙ empty))
              | inr miss ↦ miss
            ] in
            rw (ne, ne, miss) refl
      ]
