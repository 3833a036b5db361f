-- ===== src/Runner/Runs/Bins.antt =====
-- Well-formed bins.
pub mod Unlink
pub mod Link
use native.Mathlib.Decide.{ℕ_discrete}
use allocazam.Prelude.{
  ℕ, ◌+◌, ◌*◌, ◌/◌, ◌%◌, ◌^◌, ◌≤◌, ◌<◌, ◌≡◌, ◌≢◌, refl, sym, ap, subst, ◌∙◌, List, [], ◌∷◌, ◌⊎◌,
  inl, inr, true, false, arith, ◌==◌, ==_self, if◌then◌else◌, Bool-cases,
}
use allocazam.Memory.{Memory, write}
use allocazam.Pool.Tally.{tally, drop_one, tally-drop_one}
use allocazam.Runner.Sizes.{bin_index_for}
use allocazam.Runner.Mask.{set_bin_nonempty, set_bin_empty}
use allocazam.Runner.Mask.Search.{bin_digit}
use allocazam.Runner.Mask.Marks.{
  IsMask, set_bin_nonempty-IsMask, set_bin_empty-IsMask, set_bin_nonempty-digit,
  set_bin_empty-digit,
}
use allocazam.Runner.Runs.{Runner, run_size, next_link, prev_link, link_free, unlink_free}
use allocazam.Runner.Runs.Listed.{
  Linked, Linked-frame, Linked-no_null, IsAligned, Around, around, drop-Linked, head-listed,
}

-- The bins list these runs, each in one bin, and the mask marks the bins that are not empty.
pub record IsListed (r : Runner) (lists : ℕ → List ℕ) : Type 0 where
  pub linked : (i : ℕ) → Linked r.memory 0 (r.bins i) (lists i)
  pub once : (i a : ℕ) → tally a (lists i) ≤ 1
  pub apart : (i j a : ℕ) → 0 < tally a (lists i) → 0 < tally a (lists j) → i ≡ j
  pub aligned : (i : ℕ) → IsAligned (lists i)
  pub mask : IsMask r.bin_nonempty_mask
  pub marked : (i : ℕ) → bin_digit r.bin_nonempty_mask i ≡ (if r.bins i == 0 then 0 else 1)

abbrev pub put_list : (ℕ → List ℕ) → ℕ → List ℕ → ℕ → List ℕ
put_list lists idx xs i = if i == idx then xs else lists i

-- No link of a listed run stands at `a`.
abbrev pub NoLink : (ℕ → List ℕ) → ℕ → Type 0
NoLink lists a = (i x : ℕ) → 0 < tally x (lists i) → (a ≢ next_link x) × (a ≢ prev_link x)
