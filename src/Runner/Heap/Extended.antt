-- ===== src/Runner/Heap/Extended.antt =====
-- The heap with a new chunk.
use native.Mathlib.Decide.{ℕ_discrete}
use allocazam.Prelude.{
  ℕ, ◌+◌, ◌-◌, ◌≤◌, ◌<◌, ◌≡◌, ◌≢◌, sym, ap, subst, ◌∙◌, List, ◌⊎◌, inl, inr, true, false, arith,
  ◌==◌, ==_self,
}
use allocazam.Memory.{Memory}
use allocazam.Pool.Tally.{tally}
use allocazam.Runner.Sizes.{pack, bin_index_for}
use allocazam.Runner.Runs.{ChunkNode, Runner, run_size}
use allocazam.Runner.Chunks.{initialize_free_run}
use allocazam.Runner.Heap.{Heap, set, IsTiled, IsRunner, header-fields, header-NoLink, inner-NoLink}
use allocazam.Runner.Heap.Join.{set-same, set-other}
use allocazam.Runner.Heap.Chunks.{
  IsNewChunk, extended, headed, place, lists', final, facts, words, final-words, outside-word,
  final-listed, member, unlisted,
}

module _ (r : Runner) (H : Heap) (lists : ℕ → List ℕ) (c : ChunkNode) (is : IsRunner r H lists)
    (new : IsNewChunk H c.begin c.bytes) where
  abbrev E : Heap
  E = extended r H lists c is new

  abbrev start : ℕ
  start = c.begin

  abbrev bytes : ℕ
  bytes = c.bytes - 16

  abbrev end : ℕ
  end = start + bytes

  abbrev mem : Memory
  mem = final r H lists c is new

  tile : IsTiled r.memory H 0
  tile = is.tiled

  fresh :
      (x : ℕ)
      → H.there x ≡ true
      → (x ≢ start) × (x ≢ end) × ((x + H.size x + 16 ≤ start) ⊎ (start + c.bytes ≤ x))
  fresh x there =
      let f = facts r H lists c is new in
      elim (new.outside x there) [
        | inl below ↦ (omega arith, omega arith, inl below)
        | inr above ↦ (omega arith, omega arith, inr above)
      ]

  apart_ends : start ≢ end
  apart_ends = let f = facts r H lists c is new in omega arith

  there_old : (x : ℕ) → x ≢ start → x ≢ end → E.there x ≡ H.there x
  there_old x d d' =
      set-other (set H.there start true) end x true d' ∙ set-other H.there start x true d

  size_old : (x : ℕ) → x ≢ start → x ≢ end → E.size x ≡ H.size x
  size_old x d d' = set-other (set H.size start bytes) end x 0 d' ∙ set-other H.size start x bytes d

  free_old : (x : ℕ) → x ≢ start → x ≢ end → E.free x ≡ H.free x
  free_old x d d' =
      set-other (set H.free start true) end x false d' ∙ set-other H.free start x true d

  before_old : (x : ℕ) → x ≢ start → x ≢ end → E.before x ≡ H.before x
  before_old x d d' =
      set-other (set H.before start false) end x true d' ∙ set-other H.before start x false d

  at_start :
      (E.there start ≡ true)
      × (E.size start ≡ bytes)
      × (E.free start ≡ true)
      × (E.before start ≡ false)
  at_start = (
    set-other (set H.there start true) end start true apart_ends ∙ set-same H.there start true,
    set-other (set H.size start bytes) end start 0 apart_ends ∙ set-same H.size start bytes,
    set-other (set H.free start true) end start false apart_ends ∙ set-same H.free start true,
    set-other (set H.before start false) end start true apart_ends ∙ set-same H.before start false,
  )

  at_end : (E.there end ≡ true) × (E.size end ≡ 0) × (E.free end ≡ false) × (E.before end ≡ true)
  at_end = (
    set-same (set H.there start true) end true,
    set-same (set H.size start bytes) end 0,
    set-same (set H.free start true) end false,
    set-same (set H.before start false) end true,
  )

  -- A header: the chunk's two, or an old one.
  IsHeader : ℕ → Type 0
  IsHeader x =
      ((x ≡ start) × (E.size x ≡ bytes))
      ⊎ ((x ≡ end) × (E.size x ≡ 0))
      ⊎ ((x ≢ start) × (x ≢ end) × (H.there x ≡ true) × (E.size x ≡ H.size x))

  header : (x : ℕ) → E.there x ≡ true → IsHeader x
  unfolding IsHeader
  header x there = elim (ℕ_discrete x start) [
    | yes e ↦ inl (e, ap E.size e ∙ at_start.1)
    | no d ↦ elim (ℕ_discrete x end) [
      | yes e ↦ inr (inl (e, ap E.size e ∙ at_end.1))
      | no d' ↦ inr (inr (d, d', sym (there_old x d d') ∙ there, size_old x d d'))
    ]
  ]

  kept : (x : ℕ) → H.there x ≡ true → E.there x ≡ true
  kept x there = let (d, d', _) = fresh x there in there_old x d d' ∙ there

  old-word :
      (x a : ℕ)
      → H.there x ≡ true
      → x ≤ a
      → (a < x + 16) ⊎ ((x + 32 ≤ a) × (a < x + H.size x))
      → mem a ≡ r.memory a
  old-word x a there from below =
      let (_, _, away) = fresh x there in
      outside-word r H lists c is new a (omega arith) (elim below [
        | inl head ↦ header-NoLink r H lists 0 is x a there from head
        | inr (deep, inner) ↦ inner-NoLink r H lists 0 is x a there (inr (inr deep)) from inner
      ])

  extended-IsTiled : IsTiled mem E 0
  unfolding IsHeader
  extended-IsTiled = record {
    word = λ x there d. elim (header x there) [
      | inl (e, _) ↦
          subst (λ z. mem z ≡ pack (E.size z) (E.free z) (E.before z)) (sym e)
            (rw (at_start.1, at_start.2, at_start.3) (final-words r H lists c is new).0)
      | inr (inl (e, _)) ↦
          subst (λ z. mem z ≡ pack (E.size z) (E.free z) (E.before z)) (sym e)
            (rw (at_end.1, at_end.2, at_end.3) (final-words r H lists c is new).2)
      | inr (inr (d', d'', it, same)) ↦
          rw (same, free_old x d' d'', before_old x d' d'')
            (old-word x x it (omega arith) (inl (omega arith)) ∙ tile.word x it d)
    ];
    aligned = λ x there.
        let f = facts r H lists c is new in
        elim (header x there) [
          | inl (e, size) ↦ (omega arith, omega arith, omega arith)
          | inr (inl (e, size)) ↦ (omega arith, omega arith, omega arith)
          | inr (inr (d, d', it, same)) ↦ let a = tile.aligned x it in (a.0, omega arith, a.2)
        ];
    sized = λ x there.
        let f = facts r H lists c is new in
        elim (header x there) [
          | inl (e, size) ↦ inr (omega arith)
          | inr (inl (e, size)) ↦ inl size
          | inr (inr (d, d', it, same)) ↦ rw same (tile.sized x it)
        ];
    last = λ x there empty.
        let f = facts r H lists c is new in
        elim (header x there) [
          | inl (e, size) ↦ absurd (omega arith)
          | inr (inl (e, size)) ↦ ap E.free e ∙ at_end.2
          | inr (inr (d, d', it, same)) ↦ free_old x d d' ∙ tile.last x it (sym same ∙ empty)
        ];
    inside = λ x there.
        let f = facts r H lists c is new in
        elim (header x there) [
          | inl (e, size) ↦ omega arith
          | inr (inl (e, size)) ↦ omega arith
          | inr (inr (d, d', it, same)) ↦ rw same (tile.inside x it)
        ];
    next = λ x there ne. elim (header x there) [
      | inl (e, size) ↦ let place : x + E.size x ≡ end = omega arith in rw place at_end.0
      | inr (inl (e, size)) ↦ absurd (ne size)
      | inr (inr (d, d', it, same)) ↦ rw same (kept (x + H.size x) (tile.next x it (rw same at ne)))
    ];
    known = λ x there ne d some_next. elim (header x there) [
      | inl (e, size) ↦
          let place : x + E.size x ≡ end = omega arith in
          absurd (some_next (ap E.size place ∙ at_end.1))
      | inr (inl (e, size)) ↦ absurd (ne size)
      | inr (inr (d', d'', it, same)) ↦
          let some_bytes = rw same at ne in
          let (n, n', _) = fresh (x + H.size x) (tile.next x it some_bytes) in
          let some_next' : H.size (x + H.size x) ≢ 0 = λ none.
            some_next (ap (λ z. E.size (x + z)) same ∙ size_old (x + H.size x) n n' ∙ none) in
          rw (same, free_old x d' d'')
            (before_old (x + H.size x) n n' ∙ tile.known x it some_bytes d some_next')
    ];
    prior = λ x there ne before. elim (header x there) [
      | inl (e, size) ↦ absurd (let none : E.before x ≡ false = ap E.before e ∙ at_start.3 in cc)
      | inr (inl (e, size)) ↦ absurd (ne size)
      | inr (inr (d, d', it, same)) ↦
          let (p, there_p, free, place) =
            tile.prior x it (rw same at ne) (sym (before_old x d d') ∙ before) in
          let (n, n', _) = fresh p there_p in
          (p, kept p there_p, free_old p n n' ∙ free, omega (arith, size_old p n n'))
    ];
    apart = λ x y there there' lt.
        let f = facts r H lists c is new in
        elim (header x there) [
          | inl (e, size) ↦ elim (header y there') [
            | inl (e', _) ↦ absurd (omega arith)
            | inr (inl (e', _)) ↦ omega arith
            | inr (inr (d, d', it, _)) ↦ let away = (fresh y it).2 in omega arith
          ]
          | inr (inl (e, size)) ↦ omega arith
          | inr (inr (d, d', it, same)) ↦ elim (header y there') [
            | inl (e', _) ↦ let away = (fresh x it).2 in omega arith
            | inr (inl (e', _)) ↦ let away = (fresh x it).2 in omega arith
            | inr (inr (_, _, it', _)) ↦ let ends = tile.apart x y it it' lt in omega arith
          ]
        ];
    alone = λ x there free d free'. elim (header x there) [
      | inl (e, size) ↦
          let place : x + E.size x ≡ end = omega arith in
          absurd (let used : E.free (x + E.size x) ≡ false = ap E.free place ∙ at_end.2 in cc)
      | inr (inl (e, size)) ↦ absurd (let used : E.free x ≡ false = ap E.free e ∙ at_end.2 in cc)
      | inr (inr (d', d'', it, same)) ↦
          let free_x = sym (free_old x d' d'') ∙ free in
          let some_bytes : H.size x ≢ 0 = λ empty. absurd (let used = tile.last x it empty in cc) in
          let (n, n', _) = fresh (x + H.size x) (tile.next x it some_bytes) in
          rw same
            (tile.alone x it free_x d (sym (free_old (x + H.size x) n n') ∙ (rw same at free')))
    ];
    footer = λ x there free d. elim (header x there) [
      | inl (e, _) ↦
          subst (λ z. mem (z + E.size z - 8) ≡ E.size z) (sym e)
            (rw at_start.1 (final-words r H lists c is new).1)
      | inr (inl (e, size)) ↦ absurd (let used : E.free x ≡ false = ap E.free e ∙ at_end.2 in cc)
      | inr (inr (d', d'', it, same)) ↦
          let free_x = sym (free_old x d' d'') ∙ free in
          let some_bytes : H.size x ≢ 0 = λ empty. absurd (let used = tile.last x it empty in cc) in
          let large = tile.sized x it in
          rw same (
            old-word x (x + H.size x - 8) it (omega arith) (inr (omega arith, omega arith))
            ∙ tile.footer x it free_x d)
    ];
  }

  extended-IsRunner : IsRunner (initialize_free_run r c) E (lists' r H lists c is new)
  unfolding initialize_free_run IsHeader
  extended-IsRunner =
      let read : run_size (headed r H lists c is new) start ≡ bytes =
        let f = facts r H lists c is new in
        (header-fields (headed r H lists c is new) start bytes true false
          (words r H lists c is new).0 (omega arith) (omega arith)).0 in
      record {
        tiled = extended-IsTiled;
        listed = final-listed r H lists c is new;
        sound = λ i x listed. elim (ℕ_discrete x start) [
          | yes e ↦
              let at_place : i ≡ bin_index_for bytes = elim (member r H lists c is new i x listed) [
                | inl (_, here) ↦ here ∙ ap bin_index_for read
                | inr old ↦
                    absurd
                      (omega (arith, ap (λ z. tally z (lists i)) e, unlisted r H lists c is new i))
              ] in
              subst
                (λ z.
                  (E.there z ≡ true) × (E.free z ≡ true) × (i ≡ bin_index_for (E.size z)) × (z ≢ 0))
                (sym e) (at_start.0, at_start.2, rw at_start.1 at_place, new.not_null)
          | no d ↦ elim (member r H lists c is new i x listed) [
            | inl (e, _) ↦ absurd (d e)
            | inr old ↦
                let (there, free, bin, real) = is.sound i x old in
                let (n, n', _) = fresh x there in
                (kept x there, free_old x n n' ∙ free, rw (size_old x n n') bin, real)
          ]
        ];
        complete = λ x there free real. elim (header x there) [
          | inl (e, size) ↦
              let at_place : (bin_index_for (E.size x) == place r H lists c is new) ≡ true =
                rw (size, read) (==_self (bin_index_for bytes)) in
              rw at_place (ground arith)
          | inr (inl (e, size)) ↦
              absurd (let used : E.free x ≡ false = ap E.free e ∙ at_end.2 in cc)
          | inr (inr (d, d', it, same)) ↦
              let held = is.complete x it (sym (free_old x d d') ∙ free) real in
              rw same (elim (ℕ_discrete (bin_index_for (H.size x)) (place r H lists c is new)) [
                | yes e ↦ rw (e, ==_self (place r H lists c is new)) (ground (arith, rw e at held))
                | no d'' ↦
                    let miss : (bin_index_for (H.size x) == place r H lists c is new) ≡ false =
                      ground arith in
                    rw miss held
              ])
        ];
      }

-- A chunk that lies apart from all runs becomes a free run before an epilogue. The runs of all chunks
-- tile them, and the bins list the free ones; no word of an allocated run behind the first is
-- written.
pub initialize_free_run-IsRunner :
    (r : Runner) (H : Heap) (lists : ℕ → List ℕ) (c : ChunkNode) (is : IsRunner r H lists)
    (new : IsNewChunk H c.begin c.bytes)
    → (lists' : ℕ → List ℕ) × IsRunner
        (initialize_free_run r c)
        (extended r H lists c is new)
        lists'
initialize_free_run-IsRunner r H lists c is new = (_, extended-IsRunner r H lists c is new)
