-- ===== src/Exclusive/History.antt =====
-- The resource over whole histories of calls, and the lease that it implements.
use allocazam.Prelude.{
  ℕ, ◌≤◌, ◌≡◌, refl, ap, sym, subst, ◌∙◌, true, not, ◌&&◌, List, [], ◌∷◌, arith, ltb, leb, ◌==◌,
  if◌then◌else◌,
}
use allocazam.Word.Pow2.{has_single_bit}
use allocazam.Exclusive.{Resource, claimed, claim, release, expand}
use allocazam.Exclusive.Claims.{
  IsValid, claim-IsValid, release-IsValid, expand-IsValid, aligned_of_le, pow2_ne_zero,
}

pub data Call : Type 0 where
  claims : (least most alignment : ℕ) → Call
  releases : (pointer bytes alignment : ℕ) → Call
  expands : (pointer least capacity : ℕ) → Call

-- A call's reply is the pointer or the size that it returns, 0 if it returns nothing.
unfoldable pub step : Resource → Call → Resource × ℕ
step r (claims least most alignment) = claim r least most alignment
step r (releases p bytes alignment) = (release r p bytes alignment, 0)
step r (expands p least capacity) = expand r p least capacity

unfoldable pub run : Resource → List Call → Resource
run r [] = r
run r (c ∷ cs) = run (step r c).0 cs

unfoldable pub replies : Resource → List Call → List ℕ
replies r [] = []
replies r (c ∷ cs) = (step r c).1 ∷ replies (step r c).0 cs

-- The contract: one lease on a region of `capacity` bytes at `base`.
pub data Lease : Type 0 where
  vacant : Lease
  held : (least most alignment : ℕ) → Lease

pub record Region : Type 0 where
  pub base : ℕ
  pub capacity : ℕ
  pub alignment : ℕ

lease_claim : Region → ℕ → ℕ → ℕ → Lease × ℕ
lease_claim g least most a =
    if ltb 0 least && leb least most && leb most g.capacity && has_single_bit a && leb a g.alignment
    then (held least most a, g.base)
    else (vacant, 0)

lease_release : Region → ℕ → ℕ → ℕ → ℕ → ℕ → ℕ → Lease
lease_release g l m a p bytes b =
    if p == g.base && leb l bytes && leb bytes m && b == a then vacant else held l m a

lease_expand : Region → ℕ → ℕ → ℕ → ℕ → ℕ → ℕ → Lease × ℕ
lease_expand g l m a p least cap =
    if not (p == g.base)
    then (held l m a, 0)
    else if ltb m least && leb least cap && leb m cap && leb cap g.capacity
    then (held l cap a, cap)
    else (held l m a, m)

pub lease_step : Region → Lease → Call → Lease × ℕ
unfolding lease_claim lease_release lease_expand
lease_step g vacant (claims least most a) = lease_claim g least most a
lease_step g vacant (releases p bytes a) = (vacant, 0)
lease_step g vacant (expands p least cap) = (vacant, 0)
lease_step g (held l m a) (claims least most b) = (held l m a, 0)
lease_step g (held l m a) (releases p bytes b) = (lease_release g l m a p bytes b, 0)
lease_step g (held l m a) (expands p least cap) = lease_expand g l m a p least cap

pub lease_replies : Region → Lease → List Call → List ℕ
lease_replies g l [] = []
lease_replies g l (c ∷ cs) = (lease_step g l c).1 ∷ lease_replies g (lease_step g l c).0 cs

pub view : Resource → Lease
view r =
    if claimed r then held r.claimed_min_bytes r.claimed_max_bytes r.claimed_alignment else vacant

pub region : Resource → Region
region r = record { base = r.base; capacity = r.usable_bytes; alignment = r.effective_alignment }

pub step-IsValid : (r : Resource) (c : Call) → IsValid r → IsValid (step r c).0
unfolding step
step-IsValid r (claims least most a) v = claim-IsValid r least most a v
step-IsValid r (releases p bytes a) v = release-IsValid r p bytes a v
step-IsValid r (expands p least cap) v = expand-IsValid r p least cap v

step-region : (r : Resource) (c : Call) → region (step r c).0 ≡ region r
unfolding step region claim release expand
step-region r (claims least most a) = ground arith
step-region r (releases p bytes a) = ground arith
step-region r (expands p least cap) = ground arith

claim-view :
    (r : Resource) (least most a : ℕ)
    → IsValid r
    → (view (claim r least most a).0, (claim r least most a).1)
      ≡ lease_step (region r) (view r) (claims least most a)
unfolding claim view region lease_step
claim-view r least most a v =
    ground (arith, aligned_of_le r.base a r.effective_alignment, pow2_ne_zero a)

release-view :
    (r : Resource) (p bytes a : ℕ)
    → (view (release r p bytes a), 0) ≡ lease_step (region r) (view r) (releases p bytes a)
unfolding release view region lease_step
release-view r p bytes a = ground arith

expand-view :
    (r : Resource) (p least cap : ℕ)
    → (view (expand r p least cap).0, (expand r p least cap).1)
      ≡ lease_step (region r) (view r) (expands p least cap)
unfolding expand view region lease_step
expand-view r p least cap = ground arith

step-view :
    (r : Resource) (c : Call)
    → IsValid r
    → (view (step r c).0, (step r c).1) ≡ lease_step (region r) (view r) c
unfolding step
step-view r (claims least most a) v = claim-view r least most a v
step-view r (releases p bytes a) v = release-view r p bytes a
step-view r (expands p least cap) v = expand-view r p least cap

-- Over any history of claims, releases and expansions, a valid resource gives the replies of a
-- single lease on its region.
pub replies-Lease :
    (r : Resource) (cs : List Call)
    → IsValid r
    → replies r cs ≡ lease_replies (region r) (view r) cs
unfolding replies lease_replies
replies-Lease r [] v = refl
replies-Lease r (c ∷ cs) v =
    let e = step-view r c v in
    rw (← e) (
      ap (λ xs. (step r c).1 ∷ xs)
        (replies-Lease (step r c).0 cs (step-IsValid r c v)
          ∙ ap (λ g. lease_replies g (view (step r c).0) cs) (step-region r c)))

-- Any history keeps a valid resource valid, and leaves its region as it was.
pub run-IsValid :
    (r : Resource) (cs : List Call)
    → IsValid r
    → IsValid (run r cs) × (region (run r cs) ≡ region r)
unfolding run
run-IsValid r [] v = (v, refl)
run-IsValid r (c ∷ cs) v =
    let (w, e) = run-IsValid (step r c).0 cs (step-IsValid r c v) in (w, e ∙ step-region r c)

-- No call of the history gives the claim back.
abbrev pub NoRelease : List Call → Type 0
NoRelease [] = Unit {0}
NoRelease (claims _ _ _ ∷ cs) = NoRelease cs
NoRelease (releases _ _ _ ∷ cs) = ⊥
NoRelease (expands _ _ _ ∷ cs) = NoRelease cs

claim_held : (r : Resource) (least most a : ℕ) → claimed r ≡ true → claim r least most a ≡ (r, 0)
unfolding claim
claim_held r least most a h = ground arith

-- What a claim cannot lose while it is held.
abbrev pub Keeps : Resource → Resource → Type 0
Keeps r s =
    (claimed s ≡ true)
    × (s.claimed_min_bytes ≡ r.claimed_min_bytes)
    × (s.claimed_alignment ≡ r.claimed_alignment)
    × (r.claimed_max_bytes ≤ s.claimed_max_bytes)

expand-Keeps :
    (r : Resource) (p least cap : ℕ) → claimed r ≡ true → Keeps r (expand r p least cap).0
unfolding expand
expand-Keeps r p least cap h = ground arith

run-Keeps : (r : Resource) (cs : List Call) → claimed r ≡ true → NoRelease cs → Keeps r (run r cs)
unfolding run step
run-Keeps r [] h none_of = (h, refl, refl, omega arith)
run-Keeps r (claims l m a ∷ cs) h none_of =
    let same = ap (λ (t : Resource × ℕ). t.0) (claim_held r l m a h) in
    subst (λ s. Keeps r (run s cs)) (sym same) (run-Keeps r cs h none_of)
run-Keeps r (releases p n a ∷ cs) h none_of = absurd none_of
run-Keeps r (expands p l c ∷ cs) h none_of =
    let k = expand-Keeps r p l c h in
    let k' = run-Keeps (expand r p l c).0 cs k.0 none_of in
    (k'.0, k'.1 ∙ k.1, k'.2 ∙ k.2, omega (arith, k.3, k'.3))

-- While a claim is held and no release is called, it keeps its lower bound and alignment, its
-- upper bound never falls, and every further claim returns null.
pub held_until_release :
    (r : Resource) (cs : List Call) (least most a : ℕ)
    → claimed r ≡ true
    → NoRelease cs
    → Keeps r (run r cs) × (claim (run r cs) least most a ≡ (run r cs, 0))
held_until_release r cs least most a h none_of =
    let k = run-Keeps r cs h none_of in (k, claim_held (run r cs) least most a k.0)
