-- ===== src/Runner/Runs/Listed.antt =====
-- The lists of the bins: runs that are linked forth and back through their payloads.
use native.Mathlib.Decide.{ℕ_discrete}
use allocazam.Prelude.{
  ℕ, ◌%◌, ◌≤◌, ◌<◌, ◌≡◌, ◌≢◌, refl, sym, ap, subst, ◌∙◌, List, [], ◌∷◌, ◌⊎◌, inl, inr, true, false,
  arith, ◌==◌, if◌then◌else◌,
}
use allocazam.Memory.{Memory}
use allocazam.Pool.Tally.{tally, drop_one}
use allocazam.Runner.Runs.{next_link, prev_link}

-- From `head` the next-links lead through the runs to null, and the prev-links back to `prev`.
abbrev pub Linked : Memory → (prev head : ℕ) → List ℕ → Type 0
Linked mem prev head [] = head ≡ 0
Linked mem prev head (x ∷ xs) =
    (head ≡ x) × (x ≢ 0) × (mem (prev_link x) ≡ prev) × Linked mem x (mem (next_link x)) xs

-- A list depends on the links of its own runs only.
pub Linked-frame :
    (mem mem' : Memory) (prev head : ℕ) (xs : List ℕ)
    → ((a : ℕ)
        → 0 < tally a xs
        → (mem' (next_link a) ≡ mem (next_link a)) × (mem' (prev_link a) ≡ mem (prev_link a)))
    → Linked mem prev head xs
    → Linked mem' prev head xs
Linked-frame mem mem' prev head [] same c = c
Linked-frame mem mem' prev head (x ∷ xs) same c =
    let (next, back) = same x (ground arith) in
    (
      c.0,
      c.1,
      rw back c.2,
      rw next (Linked-frame mem mem' x (mem (next_link x)) xs (λ a h. same a (ground arith)) c.3),
    )

-- What stands before and behind a listed run.
abbrev pub Around : Memory → (prev head h : ℕ) → List ℕ → Type 0
Around mem prev head h xs =
    (((head ≡ h) × (mem (prev_link h) ≡ prev))
      ⊎ ((head ≢ h)
          × (mem (prev_link h) ≢ 0)
          × (0 < tally (mem (prev_link h)) xs)
          × (mem (prev_link h) ≢ h)))
    × ((mem (next_link h) ≡ 0) ⊎ ((0 < tally (mem (next_link h)) xs) × (mem (next_link h) ≢ h)))

pub head-listed :
    (mem : Memory) (prev head : ℕ) (xs : List ℕ)
    → Linked mem prev head xs
    → (head ≡ 0) ⊎ (0 < tally head xs)
head-listed mem prev head [] c = inl c
head-listed mem prev head (x ∷ xs) c = inr (ground (arith, c.0))

pub around :
    (mem : Memory) (prev head h : ℕ) (xs : List ℕ)
    → ((a : ℕ) → tally a xs ≤ 1)
    → 0 < tally h xs
    → Linked mem prev head xs
    → Around mem prev head h xs
around mem prev head h [] once held c = absurd (omega arith)
around mem prev head h (x ∷ xs) once held c = elim (ℕ_discrete h x) [
  | yes e ↦
      let new : tally x xs ≡ 0 = ground (arith, once x) in
      subst (λ z. Around mem prev head z (x ∷ xs)) (sym e)
        (
          inl (c.0, c.2),
          elim (head-listed mem x (mem (next_link x)) xs c.3) [
            | inl last ↦ inl last
            | inr more ↦ inr (ground arith, λ same. omega (arith, ap (λ z. tally z xs) same))
          ],
        )
  | no d ↦
      let (back, forth) =
        around mem x (mem (next_link x)) h xs (λ a. ground (arith, once a)) (ground arith) c.3 in
      (
        elim back [
          | inl (first, before) ↦
              inr (λ e. d (sym e ∙ c.0), rw before c.1, ground arith, λ e. d (sym e ∙ before))
          | inr (other, real, there, ne) ↦ inr (λ e. d (sym e ∙ c.0), real, ground arith, ne)
        ],
        elim forth [ inl last ↦ inl last | inr (there, ne) ↦ inr (ground arith, ne) ],
      )
]

pub Linked-no_null :
    (mem : Memory) (prev head : ℕ) (xs : List ℕ) → Linked mem prev head xs → tally 0 xs ≡ 0
Linked-no_null mem prev head [] c = refl
Linked-no_null mem prev head (x ∷ xs) c =
    ground (arith, c.1, Linked-no_null mem x (mem (next_link x)) xs c.3)

abbrev pub IsAligned : List ℕ → Type 0
IsAligned xs = (a : ℕ) → 0 < tally a xs → a % 16 ≡ 0

-- The memory in which the runs on both sides of `h` link past it.
module _ (mem after : Memory) (h : ℕ)
    (same : (a : ℕ)
      → a ≢ next_link (mem (prev_link h))
      → a ≢ prev_link (mem (next_link h))
      → after a ≡ mem a)
    (back : mem (prev_link h) ≢ 0 → after (next_link (mem (prev_link h))) ≡ mem (next_link h))
    (forth : mem (next_link h) ≢ 0
      → after (prev_link (mem (next_link h))) ≡ mem (prev_link h)) where
  abbrev pub past : ℕ → ℕ
  past head = if head == h then mem (next_link h) else head

  -- The first run goes.
  drop_first :
      (prev head : ℕ) (xs : List ℕ)
      → prev % 16 ≡ 0
      → h % 16 ≡ 0
      → IsAligned xs
      → ((a : ℕ) → tally a xs ≤ 1)
      → tally prev xs ≡ 0
      → mem (prev_link h) ≡ prev
      → Linked mem h (mem (next_link h)) xs
      → Linked after prev (mem (next_link h)) xs
  drop_first prev head [] whole whole' al once out p c = c
  drop_first prev head (y ∷ ys) whole whole' al once out p c =
      let real : mem (next_link h) ≢ 0 = rw c.0 c.1 in
      let y_whole = al y (ground arith) in
      let differs : y ≢ prev = ground arith in
      let new : tally y ys ≡ 0 = ground (arith, once y) in
      let unread : after (next_link y) ≡ mem (next_link y) =
        same (next_link y) (rw p (λ e. differs (omega arith))) (rw c.0 (omega arith)) in
      (
        c.0,
        c.1,
        rw (sym c.0) (forth real ∙ p),
        rw unread (
            Linked-frame mem after y (mem (next_link y)) ys
              (λ a held.
                let a_whole = al a (ground arith) in
                let apart : a ≢ y = λ e. omega (arith, ap (λ z. tally z ys) e) in
                (
                  same (next_link a) (rw p (ground arith)) (rw c.0 (omega arith)),
                  same (prev_link a) (rw p (omega arith)) (rw c.0 (omega arith)),
                ))
              c.3),
      )

  -- The run goes from wherever it stands.
  pub drop-Linked :
      (prev head : ℕ) (xs : List ℕ)
      → prev % 16 ≡ 0
      → IsAligned xs
      → ((a : ℕ) → tally a xs ≤ 1)
      → tally prev xs ≡ 0
      → 0 < tally h xs
      → Linked mem prev head xs
      → Linked after prev (past head) (drop_one h xs)
  drop-Linked prev head [] whole al once out held c = absurd (omega arith)
  drop-Linked prev head (x ∷ xs) whole al once out held c = elim (ℕ_discrete h x) [
    | yes e ↦
        let e' : x ≡ h = sym e in
        let here : (h == x) ≡ true = ground arith in
        let first : (head == h) ≡ true = ground (arith, c.0) in
        let c' =
          subst (λ z. (mem (prev_link z) ≡ prev) × Linked mem z (mem (next_link z)) xs) e'
            (c.2, c.3) in
        rw (here, first)
          (drop_first prev head xs whole (al h held) (λ a hd. al a (ground arith))
            (λ a. ground (arith, once a)) (ground arith) c'.0 c'.1)
    | no d ↦
        let here : (h == x) ≡ false = ground arith in
        let first : (head == h) ≡ false = ground (arith, c.0) in
        let new : tally x xs ≡ 0 = ground (arith, once x) in
        let held' : 0 < tally h xs = ground arith in
        let x_whole = al x (ground arith) in
        let once' : (a : ℕ) → tally a xs ≤ 1 = λ a. ground (arith, once a) in
        let al' : IsAligned xs = λ a hd. al a (ground arith) in
        let rest = drop-Linked x (mem (next_link x)) xs x_whole al' once' new held' c.3 in
        let (before, behind) = around mem x (mem (next_link x)) h xs once' held' c.3 in
        let n_apart : mem (next_link h) ≢ x = elim behind [
          | inl null ↦ rw null (λ e. c.1 (sym e))
          | inr (there, ne) ↦ λ e. omega (arith, ap (λ z. tally z xs) e)
        ] in
        let p_whole : mem (prev_link h) % 16 ≡ 0 = elim before [
          | inl (e, p) ↦ rw p x_whole
          | inr (ne, real, there, ne') ↦ al' (mem (prev_link h)) there
        ] in
        let n_whole : mem (next_link h) % 16 ≡ 0 = elim behind [
          | inl null ↦ rw null refl
          | inr (there, ne) ↦ al' (mem (next_link h)) there
        ] in
        let unread : after (prev_link x) ≡ mem (prev_link x) =
          same (prev_link x) (omega arith) (omega arith) in
        let link : after (next_link x) ≡ past (mem (next_link x)) = elim before [
          | inl (e, p) ↦
              let test : (mem (next_link x) == h) ≡ true = ground arith in
              rw (test, sym p) (back (rw p c.1))
          | inr (ne, real, there, ne') ↦
              let test : (mem (next_link x) == h) ≡ false = ground arith in
              let apart : mem (prev_link h) ≢ x = λ e. omega (arith, ap (λ z. tally z xs) e) in
              rw (test) (same (next_link x) (omega arith) (omega arith))
        ] in
        rw (here, first) (c.0, c.1, unread ∙ c.2, rw link rest)
  ]
