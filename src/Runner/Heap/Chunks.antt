-- ===== src/Runner/Heap/Chunks.antt =====
-- A new chunk is one free run before an epilogue.
use native.Mathlib.Decide.{ℕ_discrete}
use allocazam.Prelude.{
  ℕ, ◌+◌, ◌-◌, ◌%◌, ◌≤◌, ◌<◌, ◌≡◌, ◌≢◌, ◌∙◌, List, ◌∷◌, ◌⊎◌, inl, inr, true, false, arith, ◌==◌,
  ==_self,
}
use allocazam.Word.{size_max}
use allocazam.Memory.{Memory, write}
use allocazam.Pool.Tally.{tally}
use allocazam.Runner.Sizes.{pack, bin_index_for}
use allocazam.Runner.Runs.{
  ChunkNode, Runner, run_size, set_header, write_footer, link_free, next_link, prev_link,
  owner_word,
}
use allocazam.Runner.Runs.Bins.{IsListed, NoLink, put_list}
use allocazam.Runner.Runs.Bins.Link.{link_free-IsListed, link_free-frame}
use allocazam.Runner.Calls.{with_memory}
use allocazam.Runner.Heap.{Heap, set, IsTiled, IsRunner, listed-free}
use allocazam.Runner.Heap.Free.{headed-words, listed-frame}

-- The chunk lies apart from all runs.
pub record IsNewChunk (H : Heap) (begin bytes : ℕ) : Type 0 where
  pub aligned : begin % 16 ≡ 0
  pub whole : bytes % 16 ≡ 0
  pub large : 64 ≤ bytes
  pub not_null : begin ≢ 0
  pub fits : begin + bytes ≤ size_max
  pub outside : (x : ℕ) → H.there x ≡ true → (x + H.size x + 16 ≤ begin) ⊎ (begin + bytes ≤ x)

module _ (r : Runner) (H : Heap) (lists : ℕ → List ℕ) (c : ChunkNode) (is : IsRunner r H lists)
    (new : IsNewChunk H c.begin c.bytes) where
  abbrev pub b : ℕ
  b = c.begin

  abbrev pub run_bytes : ℕ
  run_bytes = c.bytes - 16

  abbrev pub epilogue : ℕ
  epilogue = b + run_bytes

  abbrev pub extended : Heap
  extended = record {
    there = set (set H.there b true) epilogue true;
    size = set (set H.size b run_bytes) epilogue 0;
    free = set (set H.free b true) epilogue false;
    before = set (set H.before b false) epilogue true;
  }

  tile : IsTiled r.memory H 0
  tile = is.tiled

  pub facts :
      (b % 16 ≡ 0) × (c.bytes % 16 ≡ 0) × (64 ≤ c.bytes) × (b ≢ 0) × (b + c.bytes ≤ size_max)
  facts = (new.aligned, new.whole, new.large, new.not_null, new.fits)

  abbrev pub headed : Memory
  headed = write_footer (set_header r.memory b run_bytes true false) b

  pub words :
      (headed b ≡ pack run_bytes true false)
      × (headed (b + run_bytes - 8) ≡ run_bytes)
      × ((a : ℕ) → a ≢ b → a ≢ b + run_bytes - 8 → headed a ≡ r.memory a)
  words =
      let f = facts in
      headed-words r.memory b run_bytes false (omega arith) (omega arith) (omega arith)

  -- A listed run's links lie outside the chunk.
  off : (i x : ℕ) → 0 < tally x (lists i) → (x + 48 ≤ b) ⊎ (b + c.bytes ≤ x)
  off i x listed =
      let (there, free, large, whole, _) = listed-free r H lists 0 is i x listed in
      elim (new.outside x there) [ inl below ↦ inl (omega arith) | inr above ↦ inr above ]

  headed-listed : IsListed (with_memory r headed) lists
  headed-listed =
      listed-frame r headed lists
        (λ i x listed.
          let away = off i x listed in
          let f = facts in
          (
            words.2 (next_link x) (omega arith) (omega arith),
            words.2 (prev_link x) (omega arith) (omega arith),
          ))
        is.listed

  pub unlisted : (i : ℕ) → tally b (lists i) ≡ 0
  unlisted i = elim (ℕ_discrete (tally b (lists i)) 0) [
    | yes none ↦ none
    | no ne ↦ absurd (let away = off i b (omega arith) in let f = facts in omega arith)
  ]

  abbrev pub linked : Runner
  linked = link_free (with_memory r headed) b

  abbrev pub place : ℕ
  place = bin_index_for (run_size headed b)

  abbrev pub lists' : ℕ → List ℕ
  lists' = put_list lists place (b ∷ lists place)

  linked-listed : IsListed linked lists'
  linked-listed =
      link_free-IsListed (with_memory r headed) b lists headed-listed facts.3 facts.0 unlisted

  abbrev pub final : Memory
  final = write (set_header linked.memory epilogue 0 false true) (owner_word epilogue) 0

  final-other : (a : ℕ) → a ≢ epilogue → a ≢ owner_word epilogue → final a ≡ linked.memory a
  unfolding set_header
  final-other a d d' = ground arith

  pub member :
      (i x : ℕ) → 0 < tally x (lists' i) → ((x ≡ b) × (i ≡ place)) ⊎ (0 < tally x (lists i))
  member i x listed = elim (ℕ_discrete i place) [
    | yes e ↦ elim (ℕ_discrete x b) [
      | yes same ↦ inl (same, e)
      | no d ↦ inr (rw e (ground (arith, rw (e, ==_self place) at listed)))
    ]
    | no d ↦ let miss : (i == place) ≡ false = ground arith in inr (rw miss at listed)
  ]

  pub final-listed : IsListed (with_memory linked final) lists'
  final-listed =
      listed-frame linked final lists'
        (λ i x listed.
          let f = facts in
          elim (member i x listed) [
            | inl (e, _) ↦ (
              final-other (next_link x) (omega arith) (omega arith),
              final-other (prev_link x) (omega arith) (omega arith),
            )
            | inr old ↦
                let away = off i x old in
                let x_whole = is.listed.aligned i x old in
                (
                  final-other (next_link x) (omega arith) (omega arith),
                  final-other (prev_link x) (omega arith) (omega arith),
                )
          ])
        linked-listed

  -- Words of the chunk that are no links, and words outside it.
  no_links : (a : ℕ) → b ≤ a → a < b + c.bytes → NoLink lists a
  no_links a from below i x listed = let away = off i x listed in (omega arith, omega arith)

  inside-word : (a : ℕ) → b ≤ a → a < epilogue → a ≢ b + 16 → a ≢ b + 24 → final a ≡ headed a
  inside-word a from below d d' =
      let f = facts in
      final-other a (omega arith) (omega arith)
      ∙ link_free-frame (with_memory r headed) b lists headed-listed facts.3 facts.0 unlisted a
          (no_links a from (omega arith)) (omega arith) (omega arith)

  pub outside-word : (a : ℕ) → (a < b) ⊎ (b + c.bytes ≤ a) → NoLink lists a → final a ≡ r.memory a
  outside-word a away free =
      let f = facts in
      final-other a (omega arith) (omega arith)
      ∙ link_free-frame (with_memory r headed) b lists headed-listed facts.3 facts.0 unlisted a free
          (omega arith) (omega arith)
      ∙ words.2 a (omega arith) (omega arith)

  pub final-words :
      (final b ≡ pack run_bytes true false)
      × (final (b + run_bytes - 8) ≡ run_bytes)
      × (final epilogue ≡ pack 0 false true)
  unfolding set_header
  final-words =
      let f = facts in
      (
        inside-word b (omega arith) (omega arith) (omega arith) (omega arith) ∙ words.0,
        inside-word (b + run_bytes - 8) (omega arith) (omega arith) (omega arith) (omega arith)
            ∙ words.1,
        ground arith,
      )
