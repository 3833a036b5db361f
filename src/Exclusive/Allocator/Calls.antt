-- ===== src/Exclusive/Allocator/Calls.antt =====
-- The allocator's calls on a valid resource.
use native.Mathlib.Nat.{
  div-mul-le_self, le-div_iff_mul-le, mul-le-mul_right, mul-lt-mul_of_pos_right, mul-pos,
}
use allocazam.Prelude.{
  ℕ, ◌*◌, ◌/◌, ◌≤◌, ◌<◌, ◌≡◌, sym, ◌∙◌, inl, inr, true, false, ◌&&◌, not, none, some, arith, ltb,
  leb, ◌==◌, if◌then◌else◌, Bool-cases,
}
use allocazam.Word.{size_max, wrap, checked_mul}
use allocazam.Word.Checked.{checked_mul-eq}
use allocazam.Layout.{Layout, IsLayout}
use allocazam.Exception.{bad_alloc, bad_array_new_length, ok, throw}
use allocazam.Exclusive.{Resource, claimed, claim, release}
use allocazam.Exclusive.Claims.{IsValid, hold, claim-eq}
use allocazam.Exclusive.Allocator.{theoretical_max_size, allocate, allocate_at_least, deallocate}

module _ (T : Layout) (r : Resource) (n : ℕ) (lay : IsLayout T) (v : IsValid r) where
  max_size_le : ltb (theoretical_max_size T) n ≡ ltb size_max (n * T.size)
  unfolding theoretical_max_size
  max_size_le = ground (arith, le-div_iff_mul-le {k = T.size} {x = n} {y = size_max} lay.size_pos)

  -- On a valid resource `allocate n` gives null for `n = 0`, throws `bad_array_new_length` exactly
  -- when the byte count does not fit a `size_t`, and otherwise claims exactly `n` values at the
  -- base if the resource is free, large enough and aligned enough; else it throws `bad_alloc`.
  -- Only a successful call with `0 < n` changes the resource.
  pub allocate-cases :
      n ≤ size_max
      → allocate T r n ≡ (
          if n == 0
          then (r, ok 0)
          else if ltb size_max (n * T.size)
          then (r, throw bad_array_new_length)
          else if not (claimed r)
              && leb (n * T.size) r.usable_bytes
              && leb T.align r.effective_alignment
          then (hold r (n * T.size) (n * T.size) T.align, ok r.base)
          else (r, throw bad_alloc))
  unfolding allocate
  allocate-cases small = ground (
    arith,
    max_size_le,
    checked_mul-eq n T.size,
    claim-eq r (n * T.size) (n * T.size) T.align,
    mul-pos {m = n} {n = T.size},
    v.not_null,
  )

  mul-le-mul_test : (m : ℕ) → leb (n * T.size) (m * T.size) ≡ leb n m
  mul-le-mul_test m = ground (
    arith,
    mul-le-mul_right {m = n} {n = m} T.size,
    mul-lt-mul_of_pos_right {m = m} {n = n} {k = T.size},
    lay.size_pos,
  )

  -- The claim behind `allocate_at_least`.
  claim_all :
      0 < n
      → let count = r.usable_bytes / T.size in
        claim r (n * T.size) (count * T.size) T.align ≡ (
          if not (claimed r) && leb n count && leb T.align r.effective_alignment
          then (hold r (n * T.size) (count * T.size) T.align, r.base)
          else (r, 0))
  claim_all pos =
      let count = r.usable_bytes / T.size in
      ground (
        arith,
        claim-eq r (n * T.size) (count * T.size) T.align v,
        mul-pos {m = n} {n = T.size} pos lay.size_pos,
        lay.align_pow2,
        div-mul-le_self r.usable_bytes T.size,
        mul-le-mul_test count,
      )

  -- On a valid resource of `size_t` size `allocate_at_least n` reports and claims the full number
  -- of values that the region holds, with `n` values as the least size to give back, under the
  -- conditions of `allocate`.
  pub allocate_at_least-cases :
      n ≤ size_max
      → r.usable_bytes ≤ size_max
      → let count = r.usable_bytes / T.size in
        allocate_at_least T r n ≡ (
          if n == 0
          then (r, ok (0, 0))
          else if ltb size_max (n * T.size)
          then (r, throw bad_array_new_length)
          else if not (claimed r) && leb n count && leb T.align r.effective_alignment
          then (hold r (n * T.size) (count * T.size) T.align, ok (r.base, count))
          else (r, throw bad_alloc))
  unfolding allocate_at_least
  allocate_at_least-cases small fits =
      let whole : wrap (r.usable_bytes / T.size * T.size) ≡ r.usable_bytes / T.size * T.size =
        omega (arith, div-mul-le_self r.usable_bytes T.size) in
      elim (Bool-cases (n == 0)) [
        | inl e ↦ rw e
        | inr e ↦
            rw (e, max_size_le, checked_mul-eq n T.size small (omega (arith, lay.size_fits)))
              (elim (Bool-cases (ltb size_max (n * T.size))) [
                | inl big ↦ rw big
                | inr fine ↦
                    let inside : leb (n * T.size) size_max ≡ true = ground arith in
                    rw (fine, inside, whole, claim_all (ground arith)) (ground (arith, v.not_null))
              ])
      ]

module _ (T : Layout) (r : Resource) (n m : ℕ) (lay : IsLayout T) (v : IsValid r) where
  times_test : (a b : ℕ) → leb (a * T.size) (b * T.size) ≡ leb a b
  times_test a b = mul-le-mul_test T r a lay v b

  -- The record that a release leaves is the one before the claim.
  release-hold :
      (least most : ℕ)
      → claimed r ≡ false
      → 0 < least
      → 0 < m
      → deallocate T (hold r (least * T.size) (most * T.size) T.align) r.base m
        ≡ elim (checked_mul m T.size) [
          | none ↦ hold r (least * T.size) (most * T.size) T.align
          | some bytes ↦
              if leb (least * T.size) bytes && leb bytes (most * T.size)
              then r
              else hold r (least * T.size) (most * T.size) T.align
        ]
  unfolding deallocate release claimed
  release-hold least most free pos pos' =
      ground (arith, v.idle free, v.not_null, mul-pos pos lay.size_pos)

  release-hold_test :
      (least most : ℕ)
      → claimed r ≡ false
      → 0 < least
      → 0 < m
      → m ≤ size_max
      → most * T.size ≤ size_max
      → deallocate T (hold r (least * T.size) (most * T.size) T.align) r.base m
        ≡ (if leb least m && leb m most then r else hold r (least * T.size) (most * T.size) T.align)
  release-hold_test least most free pos pos' small fits =
      rw
        (
          release-hold least most free pos pos',
          checked_mul-eq m T.size small (omega (arith, lay.size_fits)),
          ← times_test least m,
          ← times_test m most,
        )
        (ground arith)

  -- What `allocate_at_least` hands out is given back by any count from the requested to the
  -- returned one, which restores the resource; any other count leaves the claim as it is.
  pub deallocate-allocate_at_least :
      (r' : Resource) (p count : ℕ)
      → 0 < n
      → n ≤ size_max
      → 0 < m
      → m ≤ size_max
      → r.usable_bytes ≤ size_max
      → allocate_at_least T r n ≡ (r', ok (p, count))
      → deallocate T r' p m ≡ (if leb n m && leb m count then r else r')
  deallocate-allocate_at_least r' p count pos small pos' small' fits got =
      let e = sym (allocate_at_least-cases T r n lay v small fits) ∙ got in
      ground (
        arith,
        e,
        release-hold_test n (r.usable_bytes / T.size),
        div-mul-le_self r.usable_bytes T.size,
      )

  -- What `allocate n` hands out is given back by the count `n` alone.
  pub deallocate-allocate :
      (r' : Resource) (p : ℕ)
      → 0 < n
      → n ≤ size_max
      → 0 < m
      → m ≤ size_max
      → r.usable_bytes ≤ size_max
      → allocate T r n ≡ (r', ok p)
      → deallocate T r' p m ≡ (if m == n then r else r')
  deallocate-allocate r' p pos small pos' small' fits got =
      let e = sym (allocate-cases T r n lay v small) ∙ got in
      ground (arith, e, release-hold_test n n)
