-- ===== src/Runner/Runs/Bins/Link.antt =====
-- What linking a free run does to the bins.
use native.Mathlib.Decide.{ℕ_discrete}
use allocazam.Prelude.{
  ℕ, ◌%◌, ◌≤◌, ◌<◌, ◌≡◌, ◌≢◌, refl, sym, ap, subst, ◌∙◌, List, [], ◌∷◌, ◌⊎◌, inl, inr, false, arith,
  ◌==◌, ==_self, if◌then◌else◌,
}
use allocazam.Pool.Tally.{tally}
use allocazam.Runner.Sizes.{bin_index_for}
use allocazam.Runner.Mask.Search.{bin_digit}
use allocazam.Runner.Mask.Marks.{IsMask, set_bin_nonempty-IsMask, set_bin_nonempty-digit}
use allocazam.Runner.Runs.{Runner, run_size, next_link, prev_link, link_free}
use allocazam.Runner.Runs.Listed.{Linked, Linked-frame, IsAligned, head-listed}
use allocazam.Runner.Runs.Bins.{IsListed, put_list, NoLink}

module _ (r : Runner) (h : ℕ) (lists : ℕ → List ℕ) (is : IsListed r lists) (ne : h ≢ 0)
    (h_whole : h % 16 ≡ 0) (new : (i : ℕ) → tally h (lists i) ≡ 0) where
  abbrev place : ℕ
  place = bin_index_for (run_size r.memory h)

  first_of : (r.bins place ≡ 0) ⊎ (0 < tally (r.bins place) (lists place))
  first_of = head-listed r.memory 0 (r.bins place) (lists place) (is.linked place)

  first_whole : (r.bins place % 16 ≡ 0) × (r.bins place ≢ h)
  first_whole = elim first_of [
    | inl null ↦ (rw null refl, λ e. ne (sym e ∙ null))
    | inr there ↦ (
      is.aligned place (r.bins place) there,
      λ e. omega (arith, ap (λ z. tally z (lists place)) e, new place),
    )
  ]

  -- Linking writes the run's links, and the one back from the run that stood first.
  linked-words :
      ((link_free r h).memory (next_link h) ≡ r.bins place)
      × ((link_free r h).memory (prev_link h) ≡ 0)
      × (r.bins place ≢ 0 → (link_free r h).memory (prev_link (r.bins place)) ≡ h)
      × ((a : ℕ)
          → a ≢ next_link h
          → a ≢ prev_link h
          → (r.bins place ≡ 0) ⊎ (a ≢ prev_link (r.bins place))
          → (link_free r h).memory a ≡ r.memory a)
  unfolding link_free
  linked-words =
      let whole = first_whole.0 in
      let other = first_whole.1 in
      (ground arith, ground arith, λ real. ground arith, λ a d d' d''. ground arith)

  -- The list behind the new run.
  relinked :
      (xs : List ℕ)
      → IsAligned xs
      → ((a : ℕ) → tally a xs ≤ 1)
      → tally h xs ≡ 0
      → Linked r.memory 0 (r.bins place) xs
      → Linked (link_free r h).memory h (r.bins place) xs
  relinked [] al once out c = c
  relinked (x ∷ xs) al once out c =
      let (next, prev, back, same) = linked-words in
      let x_whole = al x (ground arith) in
      let new_x : tally x xs ≡ 0 = ground (arith, once x) in
      let apart : x ≢ h = λ e. ground arith in
      let unread : (link_free r h).memory (next_link x) ≡ r.memory (next_link x) =
        same (next_link x) (omega arith) (omega arith) (inr (rw c.0 (omega arith))) in
      (
        c.0,
        c.1,
        rw (sym c.0) (back (rw c.0 c.1)),
        rw unread (
            Linked-frame r.memory (link_free r h).memory x (r.memory (next_link x)) xs
              (λ a there.
                let a_whole = al a (ground arith) in
                let apart_h : a ≢ h = λ e. ground (arith, ap (λ z. tally z xs) e) in
                let apart_x : a ≢ x = λ e. ground (arith, ap (λ z. tally z xs) e) in
                (
                  same (next_link a) (omega arith) (omega arith) (inr (rw c.0 (omega arith))),
                  same (prev_link a) (omega arith) (omega arith) (inr (rw c.0 (omega arith))),
                ))
              c.3),
      )

  -- The lists of the other bins stay as they are.
  unmoved : (i : ℕ) → i ≢ place → Linked (link_free r h).memory 0 (r.bins i) (lists i)
  unmoved i other =
      let (next, prev, back, same) = linked-words in
      Linked-frame r.memory (link_free r h).memory 0 (r.bins i) (lists i)
        (λ a there.
          let a_whole = is.aligned i a there in
          let whole = first_whole.0 in
          let apart_h : a ≢ h = λ e. omega (arith, ap (λ z. tally z (lists i)) e, new i) in
          let apart_first : (r.bins place ≡ 0) ⊎ (a ≢ r.bins place) = elim first_of [
            | inl null ↦ inl null
            | inr held ↦ inr (λ e.
                other
                  (is.apart i place a there (subst (λ z. 0 < tally z (lists place)) (sym e) held)))
          ] in
          (
            same (next_link a) (omega arith) (omega arith)
                (elim apart_first [ inl null ↦ inl null | inr d ↦ inr (omega arith) ]),
            same (prev_link a) (omega arith) (omega arith)
                (elim apart_first [ inl null ↦ inl null | inr d ↦ inr (omega arith) ]),
          ))
        (is.linked i)

  listed-cases :
      (i a : ℕ)
      → 0 < tally a (put_list lists place (h ∷ lists place) i)
      → ((a ≡ h) × (i ≡ place)) ⊎ (0 < tally a (lists i))
  listed-cases i a there = elim (ℕ_discrete i place) [
    | yes e ↦ elim (ℕ_discrete a h) [
      | yes same ↦ inl (same, e)
      | no d ↦ inr (rw e (ground (arith, (rw (e, ==_self place) at there))))
    ]
    | no d ↦ let miss : (i == place) ≡ false = ground arith in inr (rw miss at there)
  ]

  linked-IsMask : IsMask (link_free r h).bin_nonempty_mask
  unfolding link_free
  linked-IsMask = set_bin_nonempty-IsMask r.bin_nonempty_mask is.mask place

  linked-marked :
      (i : ℕ)
      → bin_digit (link_free r h).bin_nonempty_mask i
        ≡ (if (link_free r h).bins i == 0 then 0 else 1)
  unfolding link_free
  linked-marked i =
      set_bin_nonempty-digit r.bin_nonempty_mask is.mask place i ∙ elim (ℕ_discrete i place) [
        | yes e ↦ let real : (h == 0) ≡ false = ground arith in rw (e, ==_self place, real) refl
        | no d ↦ let miss : (i == place) ≡ false = ground arith in rw miss (is.marked i)
      ]

  linked-bins : (i : ℕ) → (link_free r h).bins i ≡ (if i == place then h else r.bins i)
  unfolding link_free
  linked-bins i = refl

  -- Linking puts the run first into its list.
  pub link_free-IsListed : IsListed (link_free r h) (put_list lists place (h ∷ lists place))
  link_free-IsListed = record {
    linked = λ i. rw (linked-bins i) (elim (ℕ_discrete i place) [
      | yes e ↦
          let (next, prev, back, same) = linked-words in
          rw (e, ==_self place)
            (
              refl,
              ne,
              prev,
              rw next (
                  relinked (lists place) (is.aligned place) (is.once place) (new place)
                    (is.linked place)),
            )
      | no d ↦ let miss : (i == place) ≡ false = ground arith in rw miss (unmoved i d)
    ]);
    once = λ i a. elim (ℕ_discrete i place) [
      | yes e ↦ rw (e, ==_self place) (ground (arith, is.once place a, new place))
      | no d ↦ let miss : (i == place) ≡ false = ground arith in rw miss (is.once i a)
    ];
    apart = λ i j a there there'. elim (listed-cases i a there) [
      | inl (e, here) ↦ elim (listed-cases j a there') [
        | inl (e', here') ↦ here ∙ sym here'
        | inr old ↦ omega (arith, ap (λ z. tally z (lists j)) e, new j)
      ]
      | inr old ↦ elim (listed-cases j a there') [
        | inl (e', here') ↦ omega (arith, ap (λ z. tally z (lists i)) e', new i)
        | inr old' ↦ is.apart i j a old old'
      ]
    ];
    aligned = λ i a there. elim (listed-cases i a there) [
      | inl (e, here) ↦ rw e h_whole
      | inr old ↦ is.aligned i a old
    ];
    mask = linked-IsMask;
    marked = linked-marked;
  }

  pub link_free-frame :
      (a : ℕ)
      → NoLink lists a
      → a ≢ next_link h
      → a ≢ prev_link h
      → (link_free r h).memory a ≡ r.memory a
  link_free-frame a free d d' =
      linked-words.3 a d d' (elim first_of [
        | inl null ↦ inl null
        | inr there ↦ inr (free place (r.bins place) there).1
      ])
