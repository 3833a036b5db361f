-- ===== src/Runner/Outside.antt =====
-- lib/runner.hpp: what of a runner the calls that divide and join runs do not touch.
use allocazam.Prelude.{
  ℕ, ◌-◌, ◌≡◌, refl, ◌∙◌, Bool, true, false, ltb, leb, ◌==◌, not, ◌&&◌, ◌||◌, if◌then◌else◌,
  Bool-cases, Option-cases, inl, inr,
}
use allocazam.Word.{checked_add}
use allocazam.Runner.Sizes.{normalized_run_bytes_for_payload}
use allocazam.Runner.Runs.{
  Runner, link_free, unlink_free, is_free, next_run, prev_run, prev_is_free, run_size,
  header_from_payload,
}
use allocazam.Runner.Calls.{
  split_run, allocate_from_free_run, join_next, join_prev, make_free, deallocate_bytes, expand_into,
  expand_run, expand,
}

-- The fields but for the memory and the bins.
abbrev pub outside : Runner → Runner
outside r = record r { memory = λ a. 0; bins = λ i. 0; bin_nonempty_mask = λ w. 0 }

either :
    {o : Runner} (b : Bool) (x y : Runner)
    → outside x ≡ o
    → outside y ≡ o
    → outside (if b then x else y) ≡ o
either true x y e e' = e
either false x y e e' = e'

first-either {ℓ} :
    {A : Type ℓ} {o : Runner} (b : Bool) (x y : Runner × A)
    → outside x.0 ≡ o
    → outside y.0 ≡ o
    → outside (if b then x else y).0 ≡ o
first-either true x y e e' = e
first-either false x y e e' = e'

pub outside-unlink_free : (r : Runner) (h : ℕ) → outside (unlink_free r h) ≡ outside r
unfolding unlink_free
outside-unlink_free r h = refl

pub outside-link_free : (r : Runner) (h : ℕ) → outside (link_free r h) ≡ outside r
unfolding link_free
outside-link_free r h = refl

pub outside-split_run :
    (r : Runner) (h needed total : ℕ) (prev_free : Bool)
    → outside (split_run r h needed total prev_free) ≡ outside r
unfolding split_run link_free
outside-split_run r h needed total prev_free = either _ _ _ refl refl

pub outside-make_free : (r : Runner) (c size : ℕ) → outside (make_free r c size) ≡ outside r
unfolding make_free link_free
outside-make_free r c size = refl

pub outside-join_next : (r : Runner) (c size : ℕ) → outside (join_next r c size).0 ≡ outside r
unfolding join_next unlink_free
outside-join_next r c size = first-either _ _ _ refl refl

pub outside-join_prev : (r : Runner) (c size : ℕ) → outside (join_prev r c size).0 ≡ outside r
unfolding join_prev unlink_free
outside-join_prev r c size =
    let prev = prev_run r.memory c in
    elim (Bool-cases (prev_is_free r.memory c && not (prev == 0) && is_free r.memory prev)) [
      | inl joins ↦ rw joins refl
      | inr stays ↦ rw stays refl
    ]

pub outside-allocate_from_free_run :
    (r : Runner) (h needed : ℕ) → outside (allocate_from_free_run r h needed).0 ≡ outside r
unfolding allocate_from_free_run
outside-allocate_from_free_run r h needed =
    outside-split_run (unlink_free r h) h needed (run_size r.memory h) (prev_is_free r.memory h)
    ∙ outside-unlink_free r h

pub outside-deallocate_bytes : (r : Runner) (p : ℕ) → outside (deallocate_bytes r p) ≡ outside r
unfolding deallocate_bytes
outside-deallocate_bytes r p =
    let h = header_from_payload p in
    let one = join_next r h (run_size r.memory h) in
    let two = join_prev one.0 h one.1 in
    either _ _ _ refl (
      outside-make_free two.0 two.1 two.2
      ∙ outside-join_prev one.0 h one.1
      ∙ outside-join_next r h (run_size r.memory h))

outside-expand_into :
    (r : Runner) (h needed combined next : ℕ)
    → outside (expand_into r h needed combined next).0 ≡ outside r
unfolding expand_into
outside-expand_into r h needed combined next =
    outside-split_run (unlink_free r next) h needed combined (prev_is_free r.memory h)
    ∙ outside-unlink_free r next

outside-expand_run : (r : Runner) (h needed : ℕ) → outside (expand_run r h needed).0 ≡ outside r
unfolding expand_run
outside-expand_run r h needed =
    let next = next_run r.memory h in
    let size = run_size r.memory h in
    elim (Bool-cases (next == 0 || not (is_free r.memory next))) [
      | inl used ↦ rw used refl
      | inr free ↦ elim (Option-cases (checked_add size (run_size r.memory next))) [
        | inl over ↦ rw (free, over) refl
        | inr (combined, sum) ↦ elim (Bool-cases (ltb combined needed)) [
          | inl small ↦ rw (free, sum, small) refl
          | inr large ↦ rw (free, sum, large) (outside-expand_into r h needed combined next)
        ]
      ]
    ]

pub outside-expand : (r : Runner) (p least : ℕ) → outside (expand r p least).0 ≡ outside r
unfolding expand
outside-expand r p least =
    let h = header_from_payload p in
    elim (Bool-cases (p == 0)) [
      | inl null ↦ rw null refl
      | inr real ↦ elim (Bool-cases (leb least (run_size r.memory h - 16))) [
        | inl enough ↦ rw (real, enough) refl
        | inr short ↦ elim (Option-cases (normalized_run_bytes_for_payload least)) [
          | inl over ↦ rw (real, short, over) refl
          | inr (needed, gives) ↦ rw (real, short, gives) (outside-expand_run r h needed)
        ]
      ]
    ]
