-- ===== src/Runner/Runs/Bins/Unlink.antt =====
-- What unlinking a free run does to the bins.
use native.Mathlib.Decide.{ℕ_discrete}
use allocazam.Prelude.{
  ℕ, ◌%◌, ◌≤◌, ◌<◌, ◌≡◌, ◌≢◌, refl, sym, ap, subst, ◌∙◌, List, [], ◌∷◌, inl, inr, true, false,
  arith, ◌==◌, ==_self, if◌then◌else◌, Bool-cases,
}
use allocazam.Memory.{Memory, write}
use allocazam.Pool.Tally.{tally, drop_one, tally-drop_one}
use allocazam.Runner.Sizes.{bin_index_for}
use allocazam.Runner.Mask.{set_bin_empty}
use allocazam.Runner.Mask.Search.{bin_digit}
use allocazam.Runner.Mask.Marks.{IsMask, set_bin_empty-IsMask, set_bin_empty-digit}
use allocazam.Runner.Runs.{Runner, run_size, next_link, prev_link, unlink_free}
use allocazam.Runner.Runs.Listed.{Linked, Linked-frame, Linked-no_null, Around, around, drop-Linked}
use allocazam.Runner.Runs.Bins.{IsListed, put_list, NoLink}

module _ (r : Runner) (h : ℕ) (lists : ℕ → List ℕ) (is : IsListed r lists)
    (held : 0 < tally h (lists (bin_index_for (run_size r.memory h)))) where
  abbrev idx : ℕ
  idx = bin_index_for (run_size r.memory h)

  abbrev p : ℕ
  p = r.memory (prev_link h)

  abbrev n : ℕ
  n = r.memory (next_link h)

  sides : Around r.memory 0 (r.bins idx) h (lists idx)
  sides = around r.memory 0 (r.bins idx) h (lists idx) (is.once idx) held (is.linked idx)

  real_run : h ≢ 0
  real_run e = omega (
    arith,
    Linked-no_null r.memory 0 (r.bins idx) (lists idx) (is.linked idx),
    ap (λ z. tally z (lists idx)) e,
    held,
  )

  p_whole : (p % 16 ≡ 0) × (p ≢ h)
  p_whole = elim sides.0 [
    | inl (e, none_before) ↦ (rw none_before refl, λ same. real_run (sym same ∙ none_before))
    | inr (ne, real, there, other) ↦ (is.aligned idx p there, other)
  ]

  n_whole : n % 16 ≡ 0
  n_whole = elim sides.1 [
    | inl none_behind ↦ rw none_behind refl
    | inr (there, other) ↦ is.aligned idx n there
  ]

  abbrev before : Memory
  before = if p == 0 then r.memory else write r.memory (next_link p) n

  before-links : (before (next_link h) ≡ n) × (before (prev_link h) ≡ p)
  before-links =
      let h_whole = is.aligned idx h held in
      elim (ℕ_discrete p 0) [
        | yes e ↦ let test : (p == 0) ≡ true = ground arith in rw test (refl, refl)
        | no d ↦
            let test : (p == 0) ≡ false = ground arith in
            let apart : (next_link p == next_link h) ≡ false = ground (arith, p_whole.1) in
            let apart' : (next_link p == prev_link h) ≡ false = ground (arith, p_whole.0) in
            rw (test, apart, apart') (refl, refl)
      ]

  unlinked-memory :
      (unlink_free r h).memory ≡ (if n == 0 then before else write before (prev_link n) p)
  unfolding unlink_free
  unlinked-memory = rw (before-links.0, before-links.1) refl

  -- The two words that unlinking writes.
  unlinked :
      ((a : ℕ) → a ≢ next_link p → a ≢ prev_link n → (unlink_free r h).memory a ≡ r.memory a)
      × (p ≢ 0 → (unlink_free r h).memory (next_link p) ≡ n)
      × (n ≢ 0 → (unlink_free r h).memory (prev_link n) ≡ p)
  unlinked =
      let whole = p_whole.0 in
      let whole' = n_whole in
      rw unlinked-memory (λ a ne ne'. ground arith, λ real. ground arith, λ real. ground arith)

  -- Neighbours stand in no other list.
  elsewhere : (j x : ℕ) → j ≢ idx → 0 < tally x (lists j) → (x % 16 ≡ 0) × (x ≢ p) × (x ≢ n)
  elsewhere j x other there =
      let real : x ≢ 0 = λ e. omega (
        arith,
        Linked-no_null r.memory 0 (r.bins j) (lists j) (is.linked j),
        ap (λ z. tally z (lists j)) e,
        there,
      ) in
      (
        is.aligned j x there,
        λ e. elim sides.0 [
          | inl (ne, none_before) ↦ real (e ∙ none_before)
          | inr (ne, some_before, here, ne') ↦
              other (is.apart j idx x there (subst (λ z. 0 < tally z (lists idx)) (sym e) here))
        ],
        λ e. elim sides.1 [
          | inl none_behind ↦ real (e ∙ none_behind)
          | inr (here, ne) ↦
              other (is.apart j idx x there (subst (λ z. 0 < tally z (lists idx)) (sym e) here))
        ],
      )

  -- The heads after unlinking.
  bins' : ℕ → ℕ
  bins' i = if i == idx then (if r.bins idx == h then n else r.bins idx) else r.bins i

  unlinked-bins : (i : ℕ) → (unlink_free r h).bins i ≡ bins' i
  unfolding unlink_free bins'
  unlinked-bins i = elim sides.0 [
    | inl (first, none_before) ↦
        let test : (p == 0) ≡ true = ground arith in
        let test' : (r.bins idx == h) ≡ true = ground arith in rw (test, test') refl
    | inr (ne, some_before, here, ne') ↦
        let test : (p == 0) ≡ false = ground arith in
        let test' : (r.bins idx == h) ≡ false = ground arith in
        rw (test, test')
          (elim (ℕ_discrete i idx) [
            | yes e ↦ rw (e, ==_self idx) refl
            | no d ↦ let miss : (i == idx) ≡ false = ground arith in rw miss refl
          ])
  ]

  unlinked-linked :
      (i : ℕ)
      → Linked (unlink_free r h).memory 0 (bins' i) (put_list lists idx (drop_one h (lists idx)) i)
  unfolding bins'
  unlinked-linked i =
      let (same, back, forth) = unlinked in
      elim (ℕ_discrete i idx) [
        | yes e ↦
            rw (e, ==_self idx)
              (drop-Linked r.memory (unlink_free r h).memory h same back forth 0 (r.bins idx)
                (lists idx) refl (is.aligned idx) (is.once idx)
                (Linked-no_null r.memory 0 (r.bins idx) (lists idx) (is.linked idx)) held
                (is.linked idx))
        | no d ↦
            let miss : (i == idx) ≡ false = ground arith in
            rw miss (
              Linked-frame r.memory (unlink_free r h).memory 0 (r.bins i) (lists i)
                (λ x there.
                  let (x_whole, not_p, not_n) = elsewhere i x d there in
                  let whole = p_whole.0 in
                  let whole' = n_whole in
                  (
                    same (next_link x) (omega arith) (omega arith),
                    same (prev_link x) (omega arith) (omega arith),
                  ))
                (is.linked i))
      ]

  fewer : (i a : ℕ) → tally a (put_list lists idx (drop_one h (lists idx)) i) ≤ tally a (lists i)
  fewer i a = elim (ℕ_discrete i idx) [
    | yes e ↦ rw (e, ==_self idx) (omega (arith, tally-drop_one a h (lists idx) held))
    | no d ↦ let miss : (i == idx) ≡ false = ground arith in rw miss (omega arith)
  ]

  unlinked-mask :
      (unlink_free r h).bin_nonempty_mask
      ≡ (if bins' idx == 0 then set_bin_empty r.bin_nonempty_mask idx else r.bin_nonempty_mask)
  unfolding unlink_free
  unlinked-mask =
      ap (λ b. if b == 0 then set_bin_empty r.bin_nonempty_mask idx else r.bin_nonempty_mask)
        (unlinked-bins idx)

  -- A bin with a run is not empty.
  some_first : r.bins idx ≢ 0
  some_first e = elim sides.0 [
    | inl (first, none_before) ↦ real_run (sym first ∙ e)
    | inr (ne, some_before, here, ne') ↦ no_list (lists idx) (rw e at (is.linked idx)) held
  ]
    where
      no_list : (xs : List ℕ) → Linked r.memory 0 0 xs → 0 < tally h xs → ⊥
      no_list [] c none = omega arith
      no_list (x ∷ xs) c some_run = c.1 (sym c.0)

  unlinked-marked :
      (i : ℕ) → bin_digit (unlink_free r h).bin_nonempty_mask i ≡ (if bins' i == 0 then 0 else 1)
  unfolding bins'
  unlinked-marked i = elim (ℕ_discrete (bins' idx) 0) [
    | yes e ↦
        let test : (bins' idx == 0) ≡ true = ground arith in
        rw (unlinked-mask, test, set_bin_empty-digit r.bin_nonempty_mask is.mask idx i)
          (elim (ℕ_discrete i idx) [
            | yes here ↦ rw (here, test, ==_self idx) refl
            | no d ↦ let miss : (i == idx) ≡ false = ground arith in rw miss (is.marked i)
          ])
    | no ne ↦
        let test : (bins' idx == 0) ≡ false = ground arith in
        rw (unlinked-mask, test)
          (is.marked i ∙ elim (ℕ_discrete i idx) [
            | yes here ↦
                let real : (r.bins idx == 0) ≡ false = ground (arith, some_first) in
                rw (here, test, real) refl
            | no d ↦ let miss : (i == idx) ≡ false = ground arith in rw miss refl
          ])
  ]

  unlinked-IsMask : IsMask (unlink_free r h).bin_nonempty_mask
  unlinked-IsMask = rw unlinked-mask (elim (Bool-cases (bins' idx == 0)) [
    | inl e ↦ rw e (set_bin_empty-IsMask r.bin_nonempty_mask is.mask idx)
    | inr e ↦ rw e is.mask
  ])

  -- Unlinking takes the run out of its list, and out of nothing else.
  pub unlink_free-IsListed :
      IsListed (unlink_free r h) (put_list lists idx (drop_one h (lists idx)))
  unlink_free-IsListed = record {
    linked = λ i. rw (unlinked-bins i) (unlinked-linked i);
    once = λ i a. omega (arith, is.once i a, fewer i a);
    apart = λ i j a h h'. is.apart i j a (omega (arith, fewer i a)) (omega (arith, fewer j a));
    aligned = λ i a h. is.aligned i a (omega (arith, fewer i a));
    mask = unlinked-IsMask;
    marked = λ i. rw (unlinked-bins i) (unlinked-marked i);
  }

  before-frame : (a : ℕ) → NoLink lists a → before a ≡ r.memory a
  before-frame a free = elim sides.0 [
    | inl (first, none_before) ↦ let test : (p == 0) ≡ true = ground arith in rw test refl
    | inr (ne, some_before, here, ne') ↦
        let test : (p == 0) ≡ false = ground arith in
        let away = (free idx p here).0 in
        let miss : (next_link p == a) ≡ false = ground arith in rw (test, miss) refl
  ]

  -- It writes links of listed runs only.
  pub unlink_free-frame : (a : ℕ) → NoLink lists a → (unlink_free r h).memory a ≡ r.memory a
  unlink_free-frame a free = rw unlinked-memory (elim (ℕ_discrete n 0) [
    | yes last ↦ let test : (n == 0) ≡ true = ground arith in rw test (before-frame a free)
    | no more ↦
        let test : (n == 0) ≡ false = ground arith in
        let away : a ≢ prev_link n = elim sides.1 [
          | inl none_behind ↦ absurd (more none_behind)
          | inr (here, ne) ↦ (free idx n here).1
        ] in
        let miss : (prev_link n == a) ≡ false = ground arith in
        rw (test, miss) (before-frame a free)
  ])
