-- ===== src/Runner/Heap/Join.antt =====
-- Joining the run that is being changed with the free run behind it, and with the one before it.
use native.Mathlib.Decide.{ℕ_discrete, dec_lt}
use allocazam.Prelude.{
  ℕ, ◌+◌, ◌≤◌, ◌<◌, ◌≡◌, ◌≢◌, refl, sym, ap, ◌∙◌, List, ◌⊎◌, inl, inr, true, false, arith, ◌==◌,
  ==_self,
}
use allocazam.Memory.{Memory}
use allocazam.Runner.Sizes.{bin_index_for}
use allocazam.Runner.Runs.{Runner, prev_is_free, unlink_free}
use allocazam.Runner.Heap.{Heap, set, IsTiled, IsHole}
use allocazam.Runner.Heap.Take.{Unlinked}

pub set-same {ℓ} : {A : Type ℓ} (f : ℕ → A) (a : ℕ) (v : A) → set f a v a ≡ v
set-same f a v = rw (==_self a) refl

pub set-other {ℓ} : {A : Type ℓ} (f : ℕ → A) (a b : ℕ) (v : A) → b ≢ a → set f a v b ≡ f b
set-other f a b v d = let miss : (b == a) ≡ false = ground arith in rw miss refl

-- The heap without the run at `n`, and with another size of the one at `h`.
abbrev pub joined : Heap → (h n size : ℕ) → Heap
joined H h n size = record H { there = set H.there n false; size = set H.size h size }

-- A run at `h` and the one at `n` behind it, of which one is being changed.
module _ (mem : Memory) (H : Heap) (hole h n : ℕ) (which : (hole ≡ h) ⊎ (hole ≡ n))
    (is : IsTiled mem H hole) (here : H.there h ≡ true) (behind : H.there n ≡ true)
    (counts_free : H.free h ≡ true) (some_size : 48 ≤ H.size h) (some_size' : 48 ≤ H.size n)
    (place : h + H.size h ≡ n) where
  abbrev H' : Heap
  H' = joined H h n (H.size h + H.size n)

  elsewhere : (x : ℕ) → x ≢ h → x ≢ n → x ≢ hole
  elsewhere x d d' e = elim which [ inl same ↦ d (e ∙ same) | inr same ↦ d' (e ∙ same) ]

  -- Of the other headers none is lost.
  there-joined : (x : ℕ) → H'.there x ≡ true → (H.there x ≡ true) × (x ≢ n)
  there-joined x there = ground arith

  joined-there : (x : ℕ) → H.there x ≡ true → x ≢ n → H'.there x ≡ true
  joined-there x there d = ground arith

  -- Only the one run ends where the other starts.
  ends_apart : (x : ℕ) → H.there x ≡ true → H.size x ≢ 0 → x ≢ h → x + H.size x ≢ n
  ends_apart x there ne d e = elim (dec_lt x h) [
    | yes lt ↦ let ends = is.apart x h there here lt in omega arith
    | no ge ↦ let ends = is.apart h x here there (omega arith) in omega arith
  ]

  grown : H'.size h ≡ H.size h + H.size n
  grown = set-same H.size h (H.size h + H.size n)

  as_before : (x : ℕ) → x ≢ h → H'.size x ≡ H.size x
  as_before x d = set-other H.size h x (H.size h + H.size n) d

  sized-joined : (x : ℕ) → H'.size x ≢ 0 → H.size x ≢ 0
  sized-joined x ne = elim (ℕ_discrete x h) [
    | yes e ↦ λ none. omega (arith, ap H.size e)
    | no d ↦ λ none. ne (as_before x d ∙ none)
  ]

  -- Where a run ends.
  ends :
      (x : ℕ)
      → ((x ≡ h) × (x + H'.size x ≡ n + H.size n)) ⊎ ((x ≢ h) × (x + H'.size x ≡ x + H.size x))
  ends x = elim (ℕ_discrete x h) [
    | yes e ↦ inl (e, omega (arith, ap H'.size e, grown))
    | no d ↦ inr (d, omega (arith, as_before x d))
  ]

  next-joined : (x : ℕ) → H'.there x ≡ true → H'.size x ≢ 0 → H'.there (x + H'.size x) ≡ true
  next-joined x there ne =
      let (it, d) = there-joined x there in
      elim (ends x) [
        | inl (e, end) ↦
            rw end (joined-there (n + H.size n) (is.next n behind (omega arith)) (omega arith))
        | inr (other, end) ↦
            let some_bytes = sized-joined x ne in
            rw end (
              joined-there (x + H.size x) (is.next x it some_bytes)
                (ends_apart x it some_bytes other))
      ]

  known-joined :
      (x : ℕ)
      → H'.there x ≡ true
      → H'.size x ≢ 0
      → x ≢ h
      → H'.size (x + H'.size x) ≢ 0
      → H.before (x + H'.size x) ≡ H.free x
  known-joined x there ne other some_next =
      let end : x + H'.size x ≡ x + H.size x = omega (arith, as_before x other) in
      let (it, d) = there-joined x there in
      rw end (
        is.known x it (sized-joined x ne) (elsewhere x other d)
          (sized-joined (x + H.size x) (rw end at some_next)))

  prior-joined :
      (x : ℕ)
      → H'.there x ≡ true
      → H'.size x ≢ 0
      → H.before x ≡ true
      → (p : ℕ) × (H'.there p ≡ true) × (H.free p ≡ true) × (p + H'.size p ≡ x)
  prior-joined x there ne before =
      let (it, d) = there-joined x there in
      let (p, there_p, free, ends_p) = is.prior x it (sized-joined x ne) before in
      elim (ℕ_discrete p n) [
        | yes e ↦
            (h, joined-there h here (omega arith), counts_free, omega (arith, grown, ap H.size e))
        | no d' ↦ elim (ℕ_discrete p h) [
          | yes e ↦ absurd (d (omega (arith, ap H.size e)))
          | no d'' ↦ (p, joined-there p there_p d', free, omega (arith, as_before p d''))
        ]
      ]

  apart-joined : (x y : ℕ) → H'.there x ≡ true → H'.there y ≡ true → x < y → x + H'.size x ≤ y
  apart-joined x y there there' lt =
      let (it, d) = there-joined x there in
      let (it', d') = there-joined y there' in
      elim (ends x) [
        | inl (e, end) ↦
            let first = is.apart h y here it' (omega arith) in
            let second = is.apart n y behind it' (omega arith) in omega arith
        | inr (other, end) ↦ let before = is.apart x y it it' lt in omega arith
      ]

  alone-joined :
      (x : ℕ)
      → H'.there x ≡ true
      → H.free x ≡ true
      → x ≢ h
      → H.free (x + H'.size x) ≡ true
      → x + H'.size x ≡ h
  alone-joined x there f other f' =
      let (it, d) = there-joined x there in
      let end : x + H'.size x ≡ x + H.size x = omega (arith, as_before x other) in
      let some_bytes : H.size x ≢ 0 = λ empty. absurd (let used = is.last x it empty in cc) in
      let hole_next = is.alone x it f (elsewhere x other d) (rw end at f') in
      elim which [
        | inl same ↦ end ∙ hole_next ∙ same
        | inr same ↦ absurd (ends_apart x it some_bytes other (hole_next ∙ same))
      ]

  pub joined-IsTiled : IsTiled mem H' h
  joined-IsTiled = record {
    word = λ x there other.
        let (it, d) = there-joined x there in
        let same = set-other H.size h x (H.size h + H.size n) other in
        rw same (is.word x it (elsewhere x other d));
    aligned = λ x there.
        let (it, d) = there-joined x there in ground (arith, is.aligned x it, is.aligned n behind);
    sized = λ x there. let (it, d) = there-joined x there in ground (arith, is.sized x it);
    last = λ x there empty. let (it, d) = there-joined x there in ground (arith, is.last x it);
    inside = λ x there.
        let (it, d) = there-joined x there in ground (arith, is.inside x it, is.inside n behind);
    next = next-joined;
    known = known-joined;
    prior = prior-joined;
    apart = apart-joined;
    alone = alone-joined;
    footer = λ x there f other.
        let (it, d) = there-joined x there in
        let same = as_before x other in rw same (is.footer x it f (elsewhere x other d));
  }

-- Of two neighbours, the one that is being changed and a free one, the other leaves its bin and they
-- are one run from then on.
pub absorb :
    (r : Runner) (H : Heap) (lists lists' : ℕ → List ℕ) (hole u h n : ℕ)
    → ((hole ≡ h) × (u ≡ n)) ⊎ ((hole ≡ n) × (u ≡ h))
    → IsHole r H lists hole
    → Unlinked r H lists lists' hole u
    → H.there h ≡ true
    → H.there n ≡ true
    → H.free h ≡ true
    → 48 ≤ H.size h
    → 48 ≤ H.size n
    → h + H.size h ≡ n
    → prev_is_free r.memory h ≡ H.before h
    → IsHole (unlink_free r u) (joined H h n (H.size h + H.size n)) lists' h
unfolding prev_is_free
absorb r H lists lists' hole u h n which is un here behind free large large' place preceded =
    let holes : (hole ≡ h) ⊎ (hole ≡ n) = elim which [ inl e ↦ inl e.0 | inr e ↦ inr e.0 ] in
    let other : (x : ℕ) → x ≢ hole → x ≢ u → (x ≢ h) × (x ≢ n) = λ x d d'. elim which [
      | inl e ↦ (λ same. d (same ∙ sym e.0), λ same. d' (same ∙ sym e.1))
      | inr e ↦ (λ same. d' (same ∙ sym e.1), λ same. d (same ∙ sym e.0))
    ] in
    let either : (x : ℕ) → x ≢ h → x ≢ n → (x ≢ hole) × (x ≢ u) = λ x d d'. elim which [
      | inl e ↦ (λ same. d (same ∙ e.0), λ same. d' (same ∙ e.1))
      | inr e ↦ (λ same. d' (same ∙ e.0), λ same. d (same ∙ e.1))
    ] in
    record {
      runs = record {
        tiled =
            joined-IsTiled (unlink_free r u).memory H hole h n holes un.tiled here behind free large
              large' place;
        listed = un.listed;
        sound = λ i a listed.
            let (before, d) = un.kept i a listed in
            let (it, f, bin, d') = is.runs.sound i a before in
            let (not_h, not_n) = other a d' d in
            let same = set-other H.size h a (H.size h + H.size n) not_h in
            let it' : (joined H h n (H.size h + H.size n)).there a ≡ true = ground arith in
            (it', f, rw same bin, not_h);
        complete = λ a it f d.
            let (it', not_n) : (H.there a ≡ true) × (a ≢ n) = ground arith in
            let (not_hole, not_u) = either a d not_n in
            let same = set-other H.size h a (H.size h + H.size n) d in
            rw same
              (un.keeps (bin_index_for (H.size a)) a (is.runs.complete a it' f not_hole) not_u);
      };
      here = ground arith;
      counts_free = free;
      some_size = rw (set-same H.size h (H.size h + H.size n)) (omega arith);
      preceded = rw (un.headers h h here (omega arith) (omega arith)) preceded;
    }
