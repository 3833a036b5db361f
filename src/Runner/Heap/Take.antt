-- ===== src/Runner/Heap/Take.antt =====
-- Taking a free run out of its bin, alone or to join it with a run that is being changed.
use native.Mathlib.Decide.{ℕ_discrete}
use allocazam.Prelude.{
  ℕ, ◌+◌, ◌-◌, ◌≤◌, ◌<◌, ◌≡◌, ◌≢◌, ap, ◌∙◌, List, ◌⊎◌, inl, inr, true, false, arith, ◌==◌, ==_self,
  if◌then◌else◌,
}
use allocazam.Memory.{Memory}
use allocazam.Pool.Tally.{tally, drop_one, tally-drop_one}
use allocazam.Runner.Sizes.{bin_index_for}
use allocazam.Runner.Runs.{Runner, run_size, unlink_free}
use allocazam.Runner.Runs.Bins.{IsListed, NoLink, put_list}
use allocazam.Runner.Runs.Bins.Unlink.{unlink_free-IsListed, unlink_free-frame}
use allocazam.Runner.Heap.{Heap, IsTiled, IsRuns, fields, header-NoLink, inner-NoLink}

-- The tiling depends on the headers and the footers only.
pub Tiled-frame :
    (mem mem' : Memory) (H : Heap) (hole : ℕ)
    → ((h : ℕ) → H.there h ≡ true → h ≢ hole → mem' h ≡ mem h)
    → ((h : ℕ)
        → H.there h ≡ true
        → H.free h ≡ true
        → h ≢ hole
        → mem' (h + H.size h - 8) ≡ mem (h + H.size h - 8))
    → IsTiled mem H hole
    → IsTiled mem' H hole
Tiled-frame mem mem' H hole headers footers is = record {
  word = λ h there other. headers h there other ∙ is.word h there other;
  aligned = is.aligned;
  sized = is.sized;
  last = is.last;
  inside = is.inside;
  next = is.next;
  known = is.known;
  prior = is.prior;
  apart = is.apart;
  alone = is.alone;
  footer = λ h there free other. footers h there free other ∙ is.footer h there free other;
}

-- What unlinking a free run leaves.
pub record Unlinked (r : Runner) (H : Heap) (lists lists' : ℕ → List ℕ) (hole n : ℕ) : Type 0 where
  pub tiled : IsTiled (unlink_free r n).memory H hole
  pub listed : IsListed (unlink_free r n) lists'
  pub kept : (i a : ℕ) → 0 < tally a (lists' i) → (0 < tally a (lists i)) × (a ≢ n)
  pub keeps : (i a : ℕ) → 0 < tally a (lists i) → a ≢ n → 0 < tally a (lists' i)
  pub headers :
      (h b : ℕ) → H.there h ≡ true → h ≤ b → b < h + 16 → (unlink_free r n).memory b ≡ r.memory b
  pub inner :
      (h b : ℕ)
      → H.there h ≡ true
      → (H.free h ≡ false) ⊎ (h ≡ hole) ⊎ (h + 32 ≤ b)
      → h ≤ b
      → b < h + H.size h
      → (unlink_free r n).memory b ≡ r.memory b

module _ (r : Runner) (H : Heap) (lists : ℕ → List ℕ) (hole : ℕ) (is : IsRuns r H lists hole)
    (n : ℕ) (there : H.there n ≡ true) (free : H.free n ≡ true) (other : n ≢ hole) where
  abbrev pub idx : ℕ
  idx = bin_index_for (run_size r.memory n)

  held : 0 < tally n (lists idx)
  held = rw (fields r H lists hole is n there other).0 (is.complete n there free other)

  abbrev pub rest : ℕ → List ℕ
  rest = put_list lists idx (drop_one n (lists idx))

  frame : (b : ℕ) → NoLink lists b → (unlink_free r n).memory b ≡ r.memory b
  frame = unlink_free-frame r n lists is.listed held

  headers :
      (h b : ℕ) → H.there h ≡ true → h ≤ b → b < h + 16 → (unlink_free r n).memory b ≡ r.memory b
  headers h b it from below = frame b (header-NoLink r H lists hole is h b it from below)

  inner :
      (h b : ℕ)
      → H.there h ≡ true
      → (H.free h ≡ false) ⊎ (h ≡ hole) ⊎ (h + 32 ≤ b)
      → h ≤ b
      → b < h + H.size h
      → (unlink_free r n).memory b ≡ r.memory b
  inner h b it used from below = frame b (inner-NoLink r H lists hole is h b it used from below)

  large : (x : ℕ) → H.there x ≡ true → H.free x ≡ true → 48 ≤ H.size x
  large x it f = elim (is.tiled.sized x it) [
    | inl empty ↦ absurd (let e = is.tiled.last x it empty in cc)
    | inr enough ↦ enough
  ]

  rest-tally :
      (i a : ℕ) → tally a (rest i) ≡ tally a (lists i) - (if a == n then tally n (lists i) else 0)
  rest-tally i a = elim (ℕ_discrete i idx) [
    | yes e ↦
        rw (e, ==_self idx)
          (ground (arith, tally-drop_one a n (lists idx) held, is.listed.once idx n, held))
    | no d ↦
        let miss : (i == idx) ≡ false = ground arith in
        let none_there : tally n (lists i) ≡ 0 = elim (ℕ_discrete (tally n (lists i)) 0) [
          | yes none ↦ none
          | no ne ↦ absurd (d (is.listed.apart i idx n (omega arith) held))
        ] in
        rw (miss, none_there) (ground arith)
  ]

  only : (i a : ℕ) → 0 < tally a (rest i) → a ≢ n
  only i a h e =
      let test : (a == n) ≡ true = ground arith in
      let same : tally a (lists i) ≡ tally n (lists i) = ap (λ z. tally z (lists i)) e in
      absurd (omega (arith, rw test at (rest-tally i a)))

  pub unlinked : Unlinked r H lists rest hole n
  unlinked = record {
    tiled =
        Tiled-frame r.memory (unlink_free r n).memory H hole
          (λ h it d. headers h h it (omega arith) (omega arith))
          (λ h it f d.
            let l = large h it f in
            inner h (h + H.size h - 8) it (inr (inr (omega arith))) (omega arith) (omega arith))
          is.tiled;
    listed = unlink_free-IsListed r n lists is.listed held;
    kept = λ i a h. (omega (arith, rest-tally i a), λ e. only i a h e);
    keeps = λ i a h d. ground (arith, rest-tally i a);
    headers = headers;
    inner = inner;
  }
