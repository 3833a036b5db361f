-- ===== src/Exclusive/Claims.antt =====
-- What each operation of the resource does, on every branch.
use allocazam.Prelude.{
  ℕ, ◌≤◌, ◌<◌, ◌≡◌, ◌≢◌, ap, sym, ◌∙◌, ◌⊎◌, inl, inr, true, false, arith, ltb, leb, not, ◌&&◌,
  if◌then◌else◌,
}
use allocazam.Word.Pow2.{
  has_single_bit, has_single_bit_iff, is_aligned, is_aligned_iff, aligned_mono, pow2_pos,
}
use allocazam.Exception.{ok}
use allocazam.Exclusive.{Resource, construct, claimed, claim, release, expand}

-- The region is real and aligned; a claim lies within it.
pub record IsValid (r : Resource) : Type 0 where
  pub not_null : r.base ≢ 0
  pub not_empty : r.usable_bytes ≢ 0
  pub pow2 : has_single_bit r.effective_alignment ≡ true
  pub aligned : is_aligned r.base r.effective_alignment ≡ true
  pub ordered : r.claimed_min_bytes ≤ r.claimed_max_bytes
  pub within : r.claimed_max_bytes ≤ r.usable_bytes
  -- an unclaimed resource has no bounds left over
  pub idle : claimed r ≡ false → (r.claimed_max_bytes ≡ 0) × (r.claimed_alignment ≡ 0)
  pub claimed_pow2 : claimed r ≡ true → has_single_bit r.claimed_alignment ≡ true
  pub claimed_le : r.claimed_alignment ≤ r.effective_alignment

pub construct-IsValid :
    (base bytes alignment : ℕ) {r : Resource}
    → construct base bytes alignment ≡ ok r
    → IsValid r × (claimed r ≡ false)
unfolding construct claimed
construct-IsValid base bytes alignment e = ground arith

pub claim-IsValid :
    (r : Resource) (least most alignment : ℕ) → IsValid r → IsValid (claim r least most alignment).0
unfolding claim
claim-IsValid r least most alignment v = ground (arith, v.idle, v.claimed_pow2)

pub release-IsValid :
    (r : Resource) (p bytes alignment : ℕ) → IsValid r → IsValid (release r p bytes alignment)
unfolding release
release-IsValid r p bytes alignment v = ground (arith, v.idle, v.claimed_pow2)

pub expand-IsValid :
    (r : Resource) (p least capacity : ℕ) → IsValid r → IsValid (expand r p least capacity).0
unfolding expand
expand-IsValid r p least capacity v = ground (arith, v.idle, v.claimed_pow2)

-- An address aligned to the region's power of two is aligned to every smaller one.
pub aligned_of_le :
    (p a b : ℕ)
    → has_single_bit a ≡ true
    → has_single_bit b ≡ true
    → a ≤ b
    → is_aligned p b ≡ true
    → is_aligned p a ≡ true
aligned_of_le p a b ha hb le e =
    let (j, lj, ej) = (has_single_bit_iff a).0 ha in
    let (k, lk, ek) = (has_single_bit_iff b).0 hb in
    rw ej (
      (is_aligned_iff p j lj).1
        (aligned_mono p j k (rw (ej, ek) at le) ((is_aligned_iff p k lk).0 (rw ek at e))))

abbrev pub Claimable : Resource → ℕ → ℕ → ℕ → Type 0
Claimable r least most alignment =
    (claimed r ≡ false)
    × (0 < least)
    × (least ≤ most)
    × (most ≤ r.usable_bytes)
    × (has_single_bit alignment ≡ true)
    × (alignment ≤ r.effective_alignment)

abbrev pub hold : Resource → ℕ → ℕ → ℕ → Resource
hold r least most alignment = record r {
  claimed_min_bytes = least;
  claimed_max_bytes = most;
  claimed_alignment = alignment;
}

pub pow2_ne_zero : (a : ℕ) → has_single_bit a ≡ true → a ≢ 0
pow2_ne_zero a h e = let (k, _, ek) = (has_single_bit_iff a).0 h in omega (arith, pow2_pos k)

claim_when :
    (r : Resource) (least most alignment : ℕ)
    → IsValid r
    → Claimable r least most alignment
    → claim r least most alignment ≡ (hold r least most alignment, r.base)
unfolding claim
claim_when r least most alignment v (free, pos, le, fits, pow, small) =
    let ok_base = aligned_of_le r.base alignment r.effective_alignment pow v.pow2 small v.aligned in
    ground (arith, ok_base, pow2_ne_zero alignment pow)

claim_unless :
    (r : Resource) (least most alignment : ℕ)
    → (claim r least most alignment ≡ (r, 0)) ⊎ Claimable r least most alignment
unfolding claim
claim_unless r least most alignment = ground arith

-- On a valid resource `claim` succeeds exactly if nothing is claimed, the bounds are ordered,
-- nonzero and within the region, and the alignment is a power of two not above the region's. It
-- then records them and returns the base; otherwise it returns null and changes nothing.
pub claim-Claimable :
    (r : Resource) (least most alignment : ℕ)
    → IsValid r
    → (Claimable r least most alignment
        × (claim r least most alignment ≡ (hold r least most alignment, r.base)))
      ⊎ ((¬ Claimable r least most alignment) × (claim r least most alignment ≡ (r, 0)))
claim-Claimable r least most alignment v = elim (claim_unless r least most alignment) [
  | inr can ↦ inl (can, claim_when r least most alignment v can)
  | inl e ↦ inr (
    λ can.
        v.not_null
          (ap (λ (t : Resource × ℕ). t.1) (sym (claim_when r least most alignment v can) ∙ e)),
    e,
  )
]

-- The same as one equation.
pub claim-eq :
    (r : Resource) (least most alignment : ℕ)
    → IsValid r
    → claim r least most alignment ≡ (
        if not (claimed r)
          && ltb 0 least
          && leb least most
          && leb most r.usable_bytes
          && has_single_bit alignment
          && leb alignment r.effective_alignment
        then (hold r least most alignment, r.base)
        else (r, 0))
unfolding claim
claim-eq r least most alignment v =
    ground (arith, aligned_of_le r.base alignment r.effective_alignment, pow2_ne_zero alignment)
