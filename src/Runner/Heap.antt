-- ===== src/Runner/Heap.antt =====
-- A runner's chunks divided into runs, and the states between the steps of its calls.
pub mod Take
pub mod Join
pub mod Free
pub mod Freed
pub mod Open
pub mod Grown
pub mod Joins
pub mod Deallocate
pub mod Whole
pub mod Split
pub mod Commute
pub mod Allocate
pub mod Chunks
pub mod Extended
pub mod External
pub mod Expand
pub mod Covered
pub mod Fit
pub mod Drain
pub mod Grow
pub mod Served
pub mod Owned
pub mod Refill
pub mod Result
pub mod Answer
pub mod Bytes
pub mod Tests
use native.Mathlib.Decide.{ℕ_discrete, dec_lt}
use allocazam.Prelude.{
  ℕ, ◌+◌, ◌*◌, ◌/◌, ◌%◌, ◌^◌, ◌-◌, ◌≤◌, ◌<◌, ◌≡◌, ◌≢◌, refl, sym, ap, subst, ◌∙◌, List, [], ◌∷◌,
  ◌⊎◌, inl, inr, Bool, true, false, arith, ◌==◌, ==_self, if◌then◌else◌,
}
use allocazam.Word.{size_max}
use allocazam.Memory.{Memory, write}
use allocazam.Pool.Tally.{tally}
use allocazam.Runner.Sizes.{pack, bin_index_for, size_field, flag}
use allocazam.Runner.Sizes.Word.{fields-pack}
use allocazam.Runner.Runs.{
  Runner, run_size, is_free, prev_is_free, owner_word, next_link, prev_link,
}
use allocazam.Runner.Runs.Bins.{IsListed, NoLink}

-- Where headers stand, and what they say. An epilogue is a header of size 0.
pub record Heap : Type 0 where
  pub there : ℕ → Bool
  pub size : ℕ → ℕ
  pub free : ℕ → Bool
  pub before : ℕ → Bool

abbrev pub set {ℓ} : {A : Type ℓ} → (ℕ → A) → ℕ → A → ℕ → A
set f a value b = if b == a then value else f b

-- The runs tile the chunks. The run at `hole`, 0 for none, is being changed: its header and its footer
-- may be out of date, and what its neighbours know of it.
pub record IsTiled (mem : Memory) (H : Heap) (hole : ℕ) : Type 0 where
  pub word : (h : ℕ) → H.there h ≡ true → h ≢ hole → mem h ≡ pack (H.size h) (H.free h) (H.before h)
  pub aligned : (h : ℕ) → H.there h ≡ true → (h % 16 ≡ 0) × (H.size h % 16 ≡ 0) × (h ≢ 0)
  pub sized : (h : ℕ) → H.there h ≡ true → (H.size h ≡ 0) ⊎ (48 ≤ H.size h)
  pub last : (h : ℕ) → H.there h ≡ true → H.size h ≡ 0 → H.free h ≡ false
  pub inside : (h : ℕ) → H.there h ≡ true → h + H.size h + 16 ≤ size_max
  pub next : (h : ℕ) → H.there h ≡ true → H.size h ≢ 0 → H.there (h + H.size h) ≡ true
  pub known :
      (h : ℕ)
      → H.there h ≡ true
      → H.size h ≢ 0
      → h ≢ hole
      → H.size (h + H.size h) ≢ 0
      → H.before (h + H.size h) ≡ H.free h
  pub prior :
      (h : ℕ)
      → H.there h ≡ true
      → H.size h ≢ 0
      → H.before h ≡ true
      → (p : ℕ) × (H.there p ≡ true) × (H.free p ≡ true) × (p + H.size p ≡ h)
  pub apart : (h k : ℕ) → H.there h ≡ true → H.there k ≡ true → h < k → h + H.size h ≤ k
  pub alone :
      (h : ℕ)
      → H.there h ≡ true
      → H.free h ≡ true
      → h ≢ hole
      → H.free (h + H.size h) ≡ true
      → h + H.size h ≡ hole
  pub footer :
      (h : ℕ) → H.there h ≡ true → H.free h ≡ true → h ≢ hole → mem (h + H.size h - 8) ≡ H.size h

-- The bins list the free runs by their sizes, but for the one that is being changed.
pub record IsRuns (r : Runner) (H : Heap) (lists : ℕ → List ℕ) (hole : ℕ) : Type 0 where
  pub tiled : IsTiled r.memory H hole
  pub listed : IsListed r lists
  pub sound :
      (i a : ℕ)
      → 0 < tally a (lists i)
      → (H.there a ≡ true) × (H.free a ≡ true) × (i ≡ bin_index_for (H.size a)) × (a ≢ hole)
  pub complete :
      (a : ℕ)
      → H.there a ≡ true
      → H.free a ≡ true
      → a ≢ hole
      → 0 < tally a (lists (bin_index_for (H.size a)))

-- Between calls nothing is being changed.
abbrev pub IsRunner : Runner → Heap → (ℕ → List ℕ) → Type 0
IsRunner r H lists = IsRuns r H lists 0

-- A run that is being changed counts as free, and its header says what stands before it.
pub record IsHole (r : Runner) (H : Heap) (lists : ℕ → List ℕ) (hole : ℕ) : Type 0 where
  pub runs : IsRuns r H lists hole
  pub here : H.there hole ≡ true
  pub counts_free : H.free hole ≡ true
  pub some_size : 48 ≤ H.size hole
  pub preceded : prev_is_free r.memory hole ≡ H.before hole

-- The words that a client may use, those of allocated runs behind the first, are none of the
-- allocator's.
pub record IsClients (H : Heap) (hole b : ℕ) : Type 0 where
  pub at : ℕ
  pub there : H.there at ≡ true
  pub used : H.free at ≡ false
  pub other : at ≢ hole
  pub from : at + 8 ≤ b
  pub below : b < at + H.size at

-- The bytes of a run, with room for the header behind it.
abbrev pub Within : Heap → ℕ → Type 0
Within H b = (a : ℕ) × (H.there a ≡ true) × (a ≤ b) × (b < a + H.size a + 16)

-- The runs of the one heap take no bytes outside the other.
abbrev pub Inside : Heap → Heap → Type 0
Inside H' H = (b : ℕ) → Within H' b → Within H b

-- What a header says.
pub header-fields :
    (mem : Memory) (h bytes : ℕ) (free before : Bool)
    → mem h ≡ pack bytes free before
    → bytes % 16 ≡ 0
    → bytes + 3 ≤ size_max
    → (run_size mem h ≡ bytes) × (is_free mem h ≡ free) × (prev_is_free mem h ≡ before)
unfolding run_size is_free prev_is_free
header-fields mem h bytes free before e whole fits =
    let (size, f, b, _) = fields-pack bytes free before false (omega arith) fits in
    (rw e size, rw e f, rw e b)

module _ (r : Runner) (H : Heap) (lists : ℕ → List ℕ) (hole : ℕ) (is : IsRuns r H lists hole) where
  pub fields :
      (h : ℕ)
      → H.there h ≡ true
      → h ≢ hole
      → (run_size r.memory h ≡ H.size h)
        × (is_free r.memory h ≡ H.free h)
        × (prev_is_free r.memory h ≡ H.before h)
  fields h there other =
      header-fields r.memory h (H.size h) (H.free h) (H.before h) (is.tiled.word h there other)
        (is.tiled.aligned h there).1 (omega (arith, is.tiled.inside h there))

  -- A listed run is free and large enough for its links and a footer.
  pub listed-free :
      (i x : ℕ)
      → 0 < tally x (lists i)
      → (H.there x ≡ true) × (H.free x ≡ true) × (48 ≤ H.size x) × (x % 16 ≡ 0) × (x ≢ hole)
  listed-free i x listed =
      let (there, free, place, other) = is.sound i x listed in
      (
        there,
        free,
        elim (is.tiled.sized x there) [
          | inl empty ↦ absurd (let e = is.tiled.last x there empty in cc)
          | inr large ↦ large
        ],
        (is.tiled.aligned x there).0,
        other,
      )

  -- No link stands at a header or an owner word,
  pub header-NoLink : (h b : ℕ) → H.there h ≡ true → h ≤ b → b < h + 16 → NoLink lists b
  header-NoLink h b there from below i x listed =
      let (there', free, large, whole, other) = listed-free i x listed in
      let h_whole = (is.tiled.aligned h there).0 in
      elim (dec_lt x h) [
        | yes lt ↦ let ends = is.tiled.apart x h there' there lt in (omega arith, omega arith)
        | no ge ↦ (omega arith, omega arith)
      ]

  -- nor in an allocated run, in the one that is being changed, or at a footer.
  pub inner-NoLink :
      (h b : ℕ)
      → H.there h ≡ true
      → (H.free h ≡ false) ⊎ (h ≡ hole) ⊎ (h + 32 ≤ b)
      → h ≤ b
      → b < h + H.size h
      → NoLink lists b
  inner-NoLink h b there used from below i x listed =
      let (there', free, large, whole, other) = listed-free i x listed in
      let h_whole = (is.tiled.aligned h there).0 in
      elim (dec_lt x h) [
        | yes lt ↦ let ends = is.tiled.apart x h there' there lt in (omega arith, omega arith)
        | no ge ↦ elim (ℕ_discrete x h) [
          | yes e ↦ elim used [
            | inl held ↦ absurd (let same : H.free x ≡ H.free h = ap H.free e in cc)
            | inr (inl same) ↦ absurd (other (e ∙ same))
            | inr (inr behind) ↦ (omega arith, omega arith)
          ]
          | no d ↦
              let ends = is.tiled.apart h x there there' (omega arith) in (omega arith, omega arith)
        ]
      ]

  pub clients-NoLink : (b : ℕ) → IsClients H hole b → NoLink lists b
  clients-NoLink b c = inner-NoLink c.at b c.there (inl c.used) (omega (arith, c.from)) c.below
