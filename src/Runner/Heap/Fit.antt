-- ===== src/Runner/Heap/Fit.antt =====
-- The search for a free run, `_find_fit`.
use native.Mathlib.Decide.{ℕ_discrete, dec_lt, dec_le}
use allocazam.Prelude.{
  ℕ, zero, suc, ◌+◌, ◌%◌, ◌≤◌, ◌<◌, ◌≡◌, ◌≢◌, refl, sym, ap, subst, ◌∙◌, List, [], ◌∷◌, length, ◌⊎◌,
  inl, inr, true, false, Option, none, some, ltb, leb, not, ◌||◌, ◌==◌, arith,
}
use allocazam.Word.{size_max}
use allocazam.Memory.{Memory}
use allocazam.Pool.Tally.{tally}
use allocazam.Runner.Sizes.{bin_index_for, bin_count, linear_bin_count}
use allocazam.Runner.Sizes.Bins.{bin_index_for-fits, bin_index_for_mono}
use allocazam.Runner.Mask.{first_nonempty_bin_from}
use allocazam.Runner.Mask.Search.{IsFirst, bin_digit, first_nonempty_bin_from-IsFirst}
use allocazam.Runner.Runs.{Runner, run_size, next_link, chunk_bytes, fit_in_bin, fit_from, find_fit}
use allocazam.Runner.Runs.Listed.{Linked, head-listed}
use allocazam.Runner.Heap.{Heap, IsRunner, fields, listed-free}
use allocazam.Runner.Heap.Open.{real}
use allocazam.Runner.Heap.Covered.{IsCovered, in_chunks-length}

-- What the search along a list comes to.
InBin : Memory → (xs : List ℕ) → (needed : ℕ) → Option ℕ → Type 0
InBin mem xs needed result =
    ((result ≡ some 0) × ((a : ℕ) → 0 < tally a xs → run_size mem a < needed))
    ⊎ ((h : ℕ) × (result ≡ some h) × (h ≢ 0) × (0 < tally h xs) × (needed ≤ run_size mem h))

fit_in_bin-InBin :
    (rounds : ℕ) (mem : Memory) (prev head : ℕ) (xs : List ℕ) (needed : ℕ)
    → Linked mem prev head xs
    → length xs ≤ rounds
    → InBin mem xs needed (fit_in_bin rounds mem head needed)
unfolding InBin fit_in_bin
fit_in_bin-InBin zero mem prev head [] needed c enough =
    inl (rw c refl, λ a h. absurd (omega arith))
fit_in_bin-InBin (suc rounds) mem prev head [] needed c enough =
    inl (rw c refl, λ a h. absurd (omega arith))
fit_in_bin-InBin zero mem prev head (x ∷ xs) needed c enough = absurd (omega arith)
fit_in_bin-InBin (suc rounds) mem prev head (x ∷ xs) needed c enough =
    let real_head : head ≢ 0 = λ e. c.1 (sym c.0 ∙ e) in
    let test : (head == 0) ≡ false = ground arith in
    elim (dec_le needed (run_size mem head)) [
      | yes fits ↦
          let test' : leb needed (run_size mem head) ≡ true = ground arith in
          inr (head, rw (test, test') refl, real_head, ground (arith, c.0), fits)
      | no small ↦
          let test' : leb needed (run_size mem head) ≡ false = ground arith in
          let next : mem (next_link head) ≡ mem (next_link x) = ap (λ z. mem (next_link z)) c.0 in
          elim (fit_in_bin-InBin rounds mem x (mem (next_link x)) xs needed c.3 (omega arith)) [
            | inl (gives, none_fits) ↦ inl (
              rw (test, test', next) gives,
              λ a h. elim (ℕ_discrete a x) [
                | yes e ↦ subst (λ z. run_size mem z < needed) (c.0 ∙ sym e) (omega arith)
                | no d ↦ none_fits a (ground arith)
              ],
            )
            | inr (h, gives, real_h, held, fits) ↦
                inr (h, rw (test, test', next) gives, real_h, ground arith, fits)
          ]
    ]

-- What `_find_fit` promises: a free run that is large enough, or null if there is none.
abbrev pub IsFound : Heap → (needed h : ℕ) → Type 0
IsFound H needed h =
    ((h ≡ 0) × ((a : ℕ) → H.there a ≡ true → H.free a ≡ true → H.size a < needed))
    ⊎ ((h ≢ 0) × (H.there h ≡ true) × (H.free h ≡ true) × (needed ≤ H.size h))

module _ (r : Runner) (H : Heap) (lists : ℕ → List ℕ) (needed : ℕ) (is : IsRunner r H lists)
    (covered : IsCovered r.chunks H) (whole : needed % 16 ≡ 0) (small : needed + 8 ≤ size_max) where
  abbrev start : ℕ
  start = bin_index_for needed

  -- A marked bin lists runs, and an unmarked one none.
  marked-listed :
      (idx : ℕ)
      → bin_digit r.bin_nonempty_mask idx ≡ 1
      → (r.bins idx ≢ 0) × (0 < tally (r.bins idx) (lists idx))
  marked-listed idx marked =
      let some_first : r.bins idx ≢ 0 = λ e. (let says = is.listed.marked idx in ground arith) in
      (
        some_first,
        elim (head-listed r.memory 0 (r.bins idx) (lists idx) (is.listed.linked idx)) [
          | inl null ↦ absurd (some_first null)
          | inr held ↦ held
        ],
      )

  null-unlisted :
      (mem : Memory) (prev head a : ℕ) (xs : List ℕ)
      → head ≡ 0
      → Linked mem prev head xs
      → tally a xs ≡ 0
  null-unlisted mem prev head a [] e c = refl
  null-unlisted mem prev head a (x ∷ xs) e c = absurd (c.1 (sym c.0 ∙ e))

  unmarked-unlisted : (idx a : ℕ) → bin_digit r.bin_nonempty_mask idx ≡ 0 → tally a (lists idx) ≡ 0
  unmarked-unlisted idx a unmarked =
      let no_first : r.bins idx ≡ 0 = (let says = is.listed.marked idx in ground arith) in
      null-unlisted r.memory 0 (r.bins idx) a (lists idx) no_first (is.listed.linked idx)

  size_of : (a : ℕ) → H.there a ≡ true → (H.size a % 16 ≡ 0) × (H.size a + 8 ≤ size_max)
  size_of a there = ((is.tiled.aligned a there).1, omega (arith, is.tiled.inside a there))

  -- A listed run of a bin from which every one fits.
  from_bin :
      (idx : ℕ)
      → bin_digit r.bin_nonempty_mask idx ≡ 1
      → start ≤ idx
      → (idx ≢ start) ⊎ (idx < linear_bin_count)
      → IsFound H needed (r.bins idx)
  from_bin idx marked from fit =
      let (real_h, held) = marked-listed idx marked in
      let (there, free, large, _, _) = listed-free r H lists 0 is idx (r.bins idx) held in
      let bin = (is.sound idx (r.bins idx) held).2 in
      let (size_whole, fits) = size_of (r.bins idx) there in
      inr (
        real_h,
        there,
        free,
        bin_index_for-fits needed (H.size (r.bins idx)) (omega arith) (omega arith) small fits
            (elim fit [
              | inl other ↦ inl (omega arith)
              | inr linear ↦ elim (ℕ_discrete idx start) [
                | yes same ↦ inr (omega arith, omega arith)
                | no other ↦ inl (omega arith)
              ]
            ]),
      )

  -- No free run that is large enough is in an earlier bin than the first one searched.
  none_found :
      ((idx : ℕ)
        → start ≤ idx
        → idx < bin_count
        → (a : ℕ) → 0 < tally a (lists idx)
        → H.size a < needed)
      → IsFound H needed 0
  none_found small_ones = inl (
    refl,
    λ a there free. elim (dec_le needed (H.size a)) [
      | no less ↦ omega arith
      | yes fits ↦
          let (mono, lt) = bin_index_for_mono needed (H.size a) fits (size_of a there).1 in
          let held = is.complete a there free (real r H lists is a there) in
          absurd (omega (arith, small_ones (bin_index_for (H.size a)) mono lt a held))
    ],
  )

  past_end : (bins idx : ℕ) → bin_count ≤ idx → fit_from bins r start idx needed ≡ some 0
  unfolding fit_from
  past_end zero idx past = ground arith
  past_end (suc bins) idx past =
      (let test : leb bin_count idx ≡ true = ground arith in rw test refl)

  first_of_bin :
      (bins idx : ℕ)
      → idx < bin_count
      → (idx ≢ start) ⊎ (idx < linear_bin_count)
      → fit_from (suc bins) r start idx needed ≡ some (r.bins idx)
  unfolding fit_from
  first_of_bin bins idx below fit =
      let test : leb bin_count idx ≡ false = ground arith in
      let test' : (not (idx == start) || ltb idx linear_bin_count) ≡ true = ground arith in
      rw (test, test') refl

  -- In the bin itself, if sizes differ there.
  in_start :
      (bins : ℕ)
      → start < bin_count
      → linear_bin_count ≤ start
      → fit_from (suc bins) r start start needed
        ≡ elim (fit_in_bin (chunk_bytes r.chunks) r.memory (r.bins start) needed) [
          | none ↦ none
          | some zero ↦
              fit_from bins r start (first_nonempty_bin_from r.bin_nonempty_mask (suc start)) needed
          | some (suc h) ↦ some (suc h)
        ]
  unfolding fit_from
  in_start bins below far =
      let test : leb bin_count start ≡ false = ground arith in
      let test' : (not (start == start) || ltb start linear_bin_count) ≡ false = ground arith in
      rw (test, test') refl

  first :
      (idx : ℕ)
      → IsFirst
          (bin_digit r.bin_nonempty_mask)
          idx
          (first_nonempty_bin_from r.bin_nonempty_mask idx)
  first idx = first_nonempty_bin_from-IsFirst r.bin_nonempty_mask idx is.listed.mask

  -- The bins behind the first one.
  later_bins :
      (bins : ℕ)
      → ((a : ℕ) → 0 < tally a (lists start) → H.size a < needed)
      → (h : ℕ) × (fit_from
            (suc bins)
            r
            start
            (first_nonempty_bin_from r.bin_nonempty_mask (suc start))
            needed
          ≡ some h)
        × IsFound H needed h
  later_bins bins small_start =
      let idx = first_nonempty_bin_from r.bin_nonempty_mask (suc start) in
      let (unmarked, found) = first (suc start) in
      elim found [
        | inl at_end ↦ (
          0,
          past_end (suc bins) idx (omega arith),
          none_found (λ i from below a held. elim (ℕ_discrete i start) [
            | yes same ↦ small_start a (subst (λ z. 0 < tally a (lists z)) same held)
            | no other ↦
                absurd
                  (omega (arith, unmarked-unlisted i a (unmarked i (omega arith) (omega arith))))
          ]),
        )
        | inr (from, below, marked) ↦ (
          r.bins idx,
          first_of_bin bins idx below (inl (omega arith)),
          from_bin idx marked (omega arith) (inl (omega arith)),
        )
      ]

  listed_bin :
      InBin r.memory
        (lists start)
        needed
        (fit_in_bin (chunk_bytes r.chunks) r.memory (r.bins start) needed)
  listed_bin =
      fit_in_bin-InBin (chunk_bytes r.chunks) r.memory 0 (r.bins start) (lists start) needed
        (is.listed.linked start)
        (in_chunks-length r.chunks (lists start) (is.listed.once start) (λ a held.
          let (there, _, _, _, _) = listed-free r H lists 0 is start a held in
          covered a (a, there, omega arith, omega arith)))

  listed_size : (a : ℕ) → 0 < tally a (lists start) → run_size r.memory a ≡ H.size a
  listed_size a held =
      let (there, _, _, _, _) = listed-free r H lists 0 is start a held in
      (fields r H lists 0 is a there (real r H lists is a there)).0

  fit_from-IsFound :
      (bins : ℕ)
      → (h : ℕ) × (fit_from
            (suc (suc bins))
            r
            start
            (first_nonempty_bin_from r.bin_nonempty_mask start)
            needed
          ≡ some h)
        × IsFound H needed h
  unfolding InBin
  fit_from-IsFound bins =
      let idx = first_nonempty_bin_from r.bin_nonempty_mask start in
      let (unmarked, found) = first start in
      elim found [
        | inl at_end ↦ (
          0,
          past_end (suc (suc bins)) idx (omega arith),
          none_found (λ i from below a held.
              absurd (omega (arith, unmarked-unlisted i a (unmarked i from (omega arith))))),
        )
        | inr (from, below, marked) ↦ elim (dec_lt idx linear_bin_count) [
          | yes linear ↦ (
            r.bins idx,
            first_of_bin (suc bins) idx below (inr linear),
            from_bin idx marked from (inr linear),
          )
          | no far ↦ elim (ℕ_discrete idx start) [
            | no other ↦ (
              r.bins idx,
              first_of_bin (suc bins) idx below (inl other),
              from_bin idx marked from (inl other),
            )
            | yes same ↦ elim listed_bin [
              | inl (gives, small_ones) ↦
                  let (h, rest, ok_h) = later_bins bins (λ a held.
                    (let size = listed_size a held in omega (arith, small_ones a held))) in
                  (h, rw (same, in_start (suc bins) (omega arith) (omega arith), gives) rest, ok_h)
              | inr (zero, gives, real_h, held, fits) ↦ absurd (real_h refl)
              | inr (suc h, gives, real_h, held, fits) ↦
                  let (there, free, _, _, _) = listed-free r H lists 0 is start (suc h) held in
                  (
                    suc h,
                    rw (same, in_start (suc bins) (omega arith) (omega arith), gives) refl,
                    inr (real_h, there, free, (let size = listed_size (suc h) held in omega arith)),
                  )
            ]
          ]
        ]
      ]

-- Where the runs tile the chunks and the bins list the free ones, `_find_fit` ends within its rounds
-- with a free run of at least the needed bytes, or, exactly if there is none, with null.
pub find_fit-IsFound :
    (r : Runner) (H : Heap) (lists : ℕ → List ℕ) (needed : ℕ)
    → IsRunner r H lists
    → IsCovered r.chunks H
    → needed % 16 ≡ 0
    → needed + 8 ≤ size_max
    → (h : ℕ) × (find_fit r needed ≡ some h) × IsFound H needed h
unfolding find_fit
find_fit-IsFound r H lists needed is covered whole small =
    fit_from-IsFound r H lists needed is covered whole small 534
