-- ===== src/Runner/Runs/Links.antt =====
-- Linking a free run into its bin and unlinking it.
use allocazam.Prelude.{
  ℕ, ◌+◌, ◌≤◌, ◌≡◌, ◌≢◌, refl, ap, sym, ◌⊎◌, inl, inr, arith, ◌==◌, ==_self, true, false,
  if◌then◌else◌,
}
use native.Mathlib.Decide.{ℕ_discrete}
use allocazam.Runner.Sizes.{bin_index_for, size_field}
use allocazam.Runner.Runs.{Runner, run_size, link_free, unlink_free, next_link, prev_link}

module _ (r : Runner) (h : ℕ) where
  first : ℕ
  first = r.bins (bin_index_for (run_size r.memory h))

  -- Linking writes neither the header of the run nor its links once they stand.
  linked-words :
      (first ≡ 0) ⊎ (h + 48 ≤ first) ⊎ (first + 48 ≤ h)
      → ((link_free r h).memory h ≡ r.memory h)
        × ((link_free r h).memory (h + 16) ≡ first)
        × ((link_free r h).memory (h + 16 + 8) ≡ 0)
  unfolding link_free first
  linked-words apart = (ground arith, ground arith, ground arith)

  same_size :
      (first ≡ 0) ⊎ (h + 48 ≤ first) ⊎ (first + 48 ≤ h)
      → run_size (link_free r h).memory h ≡ run_size r.memory h
  unfolding run_size
  same_size apart = ap size_field (linked-words apart).0

  linked_bin :
      (i : ℕ)
      → (if i == bin_index_for (run_size r.memory h) then first else (link_free r h).bins i)
        ≡ r.bins i
  unfolding link_free first
  linked_bin i = elim (ℕ_discrete i (bin_index_for (run_size r.memory h))) [
    | yes here ↦ rw (here, ==_self (bin_index_for (run_size r.memory h))) refl
    | no other ↦
        let test : (i == bin_index_for (run_size r.memory h)) ≡ false = ground arith in rw test refl
  ]

  unlinked-bins :
      (first ≡ 0) ⊎ (h + 48 ≤ first) ⊎ (first + 48 ≤ h)
      → (i : ℕ) → (unlink_free (link_free r h) h).bins i ≡ r.bins i
  unfolding unlink_free
  unlinked-bins apart i =
      let (size, next, prev) = linked-words apart in rw (prev, next, same_size apart) (linked_bin i)

  linked-other :
      (a : ℕ)
      → a ≢ h + 16
      → a ≢ h + 16 + 8
      → (first ≡ 0) ⊎ (a ≢ first + 16 + 8)
      → (link_free r h).memory a ≡ r.memory a
  unfolding link_free first
  linked-other a ne ne' other = ground arith

  unlinked-memory :
      (first ≡ 0) ⊎ (h + 48 ≤ first) ⊎ (first + 48 ≤ h)
      → (first ≡ 0) ⊎ (r.memory (first + 16 + 8) ≡ 0)
      → (a : ℕ) → a ≢ h + 16
      → a ≢ h + 16 + 8
      → (unlink_free (link_free r h) h).memory a ≡ r.memory a
  unfolding unlink_free
  unlinked-memory apart head a ne ne' =
      let (size, next, prev) = linked-words apart in
      rw (prev, next, prev)
        (elim (ℕ_discrete first 0) [
          | yes null ↦
              let test : (first == 0) ≡ true = ground arith in
              rw test (linked-other a ne ne' (inl null))
          | no some_first ↦
              let test : (first == 0) ≡ false = ground arith in
              rw test (elim (ℕ_discrete a (first + 16 + 8)) [
                | yes here ↦
                    rw (here, ==_self (first + 16 + 8))
                      (elim head [ inl null ↦ absurd (some_first null) | inr unset ↦ sym unset ])
                | no other ↦
                    let miss : (first + 16 + 8 == a) ≡ false = ground arith in
                    rw miss (linked-other a ne ne' (inr other))
              ])
        ])

-- A run that is linked into its bin, apart from the bin's first run, which no run stands before, and
-- then unlinked leaves every bin as it was, and every word of memory but its own two links.
pub unlink_free-link_free :
    (r : Runner) (h : ℕ)
    → let first = r.bins (bin_index_for (run_size r.memory h)) in
      (first ≡ 0) ⊎ (((h + 48 ≤ first) ⊎ (first + 48 ≤ h)) × (r.memory (prev_link first) ≡ 0))
      → ((i : ℕ) → (unlink_free (link_free r h) h).bins i ≡ r.bins i)
        × ((a : ℕ)
            → (a ≡ next_link h)
              ⊎ (a ≡ prev_link h)
              ⊎ ((unlink_free (link_free r h) h).memory a ≡ r.memory a))
unfolding first
unlink_free-link_free r h head =
    let apart : (first r h ≡ 0) ⊎ (h + 48 ≤ first r h) ⊎ (first r h + 48 ≤ h) = elim head [
      | inl null ↦ inl null
      | inr (away, unset) ↦ inr away
    ] in
    let unset : (first r h ≡ 0) ⊎ (r.memory (first r h + 16 + 8) ≡ 0) = elim head [
      | inl null ↦ inl null
      | inr (away, clear) ↦ inr clear
    ] in
    (
      unlinked-bins r h apart,
      λ a. elim (ℕ_discrete a (h + 16)) [
        | yes next ↦ inl next
        | no ne ↦ elim (ℕ_discrete a (h + 16 + 8)) [
          | yes prev ↦ inr (inl prev)
          | no ne' ↦ inr (inr (unlinked-memory r h apart unset a ne ne'))
        ]
      ],
    )
