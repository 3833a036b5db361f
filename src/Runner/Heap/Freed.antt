-- ===== src/Runner/Heap/Freed.antt =====
-- The run that is being changed becomes free, at the end of `deallocate_bytes`.
use native.Mathlib.Decide.{ℕ_discrete, dec_lt}
use allocazam.Prelude.{
  ℕ, ◌+◌, ◌%◌, ◌-◌, ◌≤◌, ◌<◌, ◌≡◌, ◌≢◌, refl, sym, ap, subst, ◌∙◌, List, ◌∷◌, ◌⊎◌, inl, inr, true,
  false, arith, ◌==◌, ==_self, if◌then◌else◌,
}
use allocazam.Word.{size_max}
use allocazam.Memory.{Memory}
use allocazam.Pool.Tally.{tally}
use allocazam.Runner.Sizes.{pack, bin_index_for}
use allocazam.Runner.Runs.{
  Runner, run_size, next_link, prev_link, link_free, set_header, write_footer,
}
use allocazam.Runner.Runs.Bins.{IsListed, NoLink, put_list}
use allocazam.Runner.Runs.Bins.Link.{link_free-IsListed, link_free-frame}
use allocazam.Runner.Calls.{with_memory, mark_next, make_free}
use allocazam.Runner.Heap.{
  Heap, set, IsTiled, IsRunner, IsHole, IsClients, header-fields, header-NoLink, inner-NoLink,
  clients-NoLink,
}
use allocazam.Runner.Heap.Join.{set-other}
use allocazam.Runner.Heap.Free.{listed-frame, mark_next-words, headed-words}

module _ (r : Runner) (H : Heap) (lists : ℕ → List ℕ) (c : ℕ) (is : IsHole r H lists c) where
  abbrev n : ℕ
  n = c + H.size c

  abbrev pub freed : Heap
  freed = record H { before = set H.before n (if H.size n == 0 then H.before n else true) }

  abbrev written : Memory
  written = write_footer (set_header r.memory c (H.size c) true (H.before c)) c

  abbrev marked : Memory
  marked = mark_next written c true

  tile : IsTiled r.memory H c
  tile = is.runs.tiled

  size_facts :
      (H.size c % 16 ≡ 0)
      × (48 ≤ H.size c)
      × (c + H.size c + 16 ≤ size_max)
      × (c % 16 ≡ 0)
      × (c ≢ 0)
  size_facts = (
    (tile.aligned c is.here).1,
    is.some_size,
    tile.inside c is.here,
    (tile.aligned c is.here).0,
    (tile.aligned c is.here).2,
  )

  behind : H.there n ≡ true
  behind = tile.next c is.here (omega (arith, is.some_size))

  marked-words :
      (marked c ≡ pack (H.size c) true (H.before c))
      × (marked (c + H.size c - 8) ≡ H.size c)
      × (marked n ≡ pack (H.size n) (H.free n) (if H.size n == 0 then H.before n else true))
      × ((b : ℕ) → b ≢ c → b ≢ c + H.size c - 8 → b ≢ n → marked b ≡ r.memory b)
  marked-words =
      let (whole, large, inside, c_whole, c_real) = size_facts in
      let (header, footer, same) =
        headed-words r.memory c (H.size c) (H.before c) whole large (omega arith) in
      let size_read =
        (header-fields written c (H.size c) true (H.before c) header whole (omega arith)).0 in
      let word_n : written n ≡ pack (H.size n) (H.free n) (H.before n) =
        same n (omega arith) (omega arith) ∙ tile.word n behind (omega arith) in
      let (marks, kept) =
        mark_next-words written c (H.size c) (H.size n) (H.free n) (H.before n) true size_read
          word_n (tile.aligned n behind).1 (omega (arith, tile.inside n behind)) (omega arith) in
      (
        kept c (omega arith) ∙ header,
        kept (c + H.size c - 8) (omega arith) ∙ footer,
        marks,
        λ b d d' d''. kept b d'' ∙ same b d d',
      )

  -- The links of the free runs stand elsewhere.
  marked-listed : IsListed (with_memory r marked) lists
  marked-listed =
      let (whole, large, inside, c_whole, c_real) = size_facts in
      listed-frame r marked lists
        (λ i x listed.
          let at_c =
            header-NoLink r H lists c is.runs c c is.here (omega arith) (omega arith) i x listed in
          let at_n =
            header-NoLink r H lists c is.runs n n behind (omega arith) (omega arith) i x listed in
          let at_footer =
            inner-NoLink r H lists c is.runs c (c + H.size c - 8) is.here (inr (inl refl))
              (omega arith) (omega arith) i x listed in
          (
            marked-words.3 (next_link x) (λ e. at_c.0 (sym e)) (λ e. at_footer.0 (sym e))
                (λ e. at_n.0 (sym e)),
            marked-words.3 (prev_link x) (λ e. at_c.1 (sym e)) (λ e. at_footer.1 (sym e))
                (λ e. at_n.1 (sym e)),
          ))
        is.runs.listed

  unlisted : (i : ℕ) → tally c (lists i) ≡ 0
  unlisted i = elim (ℕ_discrete (tally c (lists i)) 0) [
    | yes e ↦ e
    | no ne ↦ absurd ((is.runs.sound i c (omega arith)).3 refl)
  ]

  abbrev result : Runner
  result = link_free (with_memory r marked) c

  abbrev place : ℕ
  place = bin_index_for (run_size marked c)

  result-listed : IsListed result (put_list lists place (c ∷ lists place))
  result-listed =
      link_free-IsListed (with_memory r marked) c lists marked-listed size_facts.4 size_facts.3
        unlisted

  result-frame :
      (b : ℕ) → NoLink lists b → b ≢ next_link c → b ≢ prev_link c → result.memory b ≡ marked b
  result-frame =
      link_free-frame (with_memory r marked) c lists marked-listed size_facts.4 size_facts.3
        unlisted

  -- A word of another run that is no link: its header, or a word that `c` does not reach.
  outer-frame :
      (x b : ℕ)
      → H.there x ≡ true
      → x ≢ c
      → x ≤ b
      → (b < x + 16) ⊎ (b < x + H.size x)
      → NoLink lists b
      → b ≢ n
      → result.memory b ≡ r.memory b
  outer-frame x b there d from below no_link not_n =
      let (whole, large, inside, c_whole, c_real) = size_facts in
      let x_whole = (tile.aligned x there).0 in
      elim (dec_lt x c) [
        | yes lt ↦
            let ends = tile.apart x c there is.here lt in
            result-frame b no_link (ground arith) (ground arith)
            ∙ marked-words.3 b (ground arith) (ground arith) not_n
        | no ge ↦
            let ends = tile.apart c x is.here there (omega arith) in
            result-frame b no_link (omega arith) (omega arith)
            ∙ marked-words.3 b (omega arith) (omega arith) not_n
      ]

  word_c : result.memory c ≡ pack (H.size c) true (H.before c)
  word_c =
      result-frame c (header-NoLink r H lists c is.runs c c is.here (omega arith) (omega arith))
        (omega arith) (omega arith)
      ∙ marked-words.0

  word_n : result.memory n ≡ pack (H.size n) (H.free n) (if H.size n == 0 then H.before n else true)
  word_n =
      let (whole, large, inside, c_whole, c_real) = size_facts in
      result-frame n (header-NoLink r H lists c is.runs n n behind (omega arith) (omega arith))
        (omega arith) (omega arith)
      ∙ marked-words.2

  footer_c : result.memory (c + H.size c - 8) ≡ H.size c
  footer_c =
      let (whole, large, inside, c_whole, c_real) = size_facts in
      result-frame (c + H.size c - 8)
        (inner-NoLink r H lists c is.runs c (c + H.size c - 8) is.here (inr (inl refl))
          (omega arith) (omega arith))
        (omega arith) (omega arith)
      ∙ marked-words.1

  -- Only `c` ends where `n` starts.
  ends_apart : (x : ℕ) → H.there x ≡ true → H.size x ≢ 0 → x ≢ c → x + H.size x ≢ n
  ends_apart x there ne d e = elim (dec_lt x c) [
    | yes lt ↦ let ends = tile.apart x c there is.here lt in omega (arith, size_facts)
    | no ge ↦ let ends = tile.apart c x is.here there (omega arith) in omega arith
  ]

  freed-before : (x : ℕ) → x ≢ n → freed.before x ≡ H.before x
  freed-before x d = set-other H.before n x (if H.size n == 0 then H.before n else true) d

  freed-word :
      (x : ℕ)
      → H.there x ≡ true
      → x ≢ 0
      → result.memory x ≡ pack (H.size x) (H.free x) (freed.before x)
  freed-word x there real = elim (ℕ_discrete x c) [
    | yes e ↦
        subst (λ z. result.memory z ≡ pack (H.size z) (H.free z) (freed.before z)) (sym e)
          (rw (is.counts_free, freed-before c (omega (arith, size_facts))) word_c)
    | no d ↦ elim (ℕ_discrete x n) [
      | yes e ↦
          subst (λ z. result.memory z ≡ pack (H.size z) (H.free z) (freed.before z)) (sym e)
            (rw (==_self n) word_n)
      | no d' ↦ rw (freed-before x d') (
          outer-frame x x there d (omega arith) (inl (omega arith))
            (header-NoLink r H lists c is.runs x x there (omega arith) (omega arith)) d'
          ∙ tile.word x there d)
    ]
  ]

  freed-known :
      (x : ℕ)
      → H.there x ≡ true
      → H.size x ≢ 0
      → x ≢ 0
      → H.size (x + H.size x) ≢ 0
      → freed.before (x + H.size x) ≡ H.free x
  freed-known x there some_bytes real some_next = elim (ℕ_discrete x c) [
    | yes e ↦
        subst (λ z. H.size (z + H.size z) ≢ 0 → freed.before (z + H.size z) ≡ H.free z) (sym e)
          (λ ne.
            let test : (H.size n == 0) ≡ false = ground arith in
            rw (==_self n, test) (sym is.counts_free))
          some_next
    | no d ↦
        freed-before (x + H.size x) (ends_apart x there some_bytes d)
        ∙ tile.known x there some_bytes d some_next
  ]

  freed-prior :
      (x : ℕ)
      → H.there x ≡ true
      → H.size x ≢ 0
      → freed.before x ≡ true
      → (p : ℕ) × (H.there p ≡ true) × (H.free p ≡ true) × (p + H.size p ≡ x)
  freed-prior x there some_bytes before = elim (ℕ_discrete x n) [
    | yes e ↦ (c, is.here, is.counts_free, sym e)
    | no d ↦ tile.prior x there some_bytes (sym (freed-before x d) ∙ before)
  ]

  module _ (next_used : H.free n ≡ false) (before_used : H.before c ≡ false) where
    freed-alone : (x : ℕ) → H.there x ≡ true → H.free x ≡ true → H.free (x + H.size x) ≡ true → ⊥
    freed-alone x there free free' = elim (ℕ_discrete x c) [
      | yes e ↦
          let same : H.free (x + H.size x) ≡ H.free n = ap (λ z. H.free (z + H.size z)) e in cc
      | no d ↦
          let some_bytes : H.size x ≢ 0 = λ empty. let used = tile.last x there empty in cc in
          let at_c = tile.alone x there free d free' in
          let some_c : H.size (x + H.size x) ≢ 0 = rw at_c (omega (arith, is.some_size)) in
          let marked_free = tile.known x there some_bytes d some_c in
          let same : H.before (x + H.size x) ≡ H.before c = ap H.before at_c in cc
    ]

    freed-footer :
        (x : ℕ) → H.there x ≡ true → H.free x ≡ true → result.memory (x + H.size x - 8) ≡ H.size x
    freed-footer x there free = elim (ℕ_discrete x c) [
      | yes e ↦ subst (λ z. result.memory (z + H.size z - 8) ≡ H.size z) (sym e) footer_c
      | no d ↦
          let large : 48 ≤ H.size x = elim (tile.sized x there) [
            | inl empty ↦ absurd (let used = tile.last x there empty in cc)
            | inr enough ↦ enough
          ] in
          let x_whole = tile.aligned x there in
          let n_whole = (tile.aligned n behind).0 in
          outer-frame x (x + H.size x - 8) there d (omega arith) (inr (omega arith))
            (inner-NoLink r H lists c is.runs x (x + H.size x - 8) there (inr (inr (omega arith)))
              (omega arith) (omega arith))
            (omega arith)
          ∙ tile.footer x there free d
    ]

    freed-IsTiled : IsTiled result.memory freed 0
    freed-IsTiled = record {
      word = freed-word;
      aligned = tile.aligned;
      sized = tile.sized;
      last = tile.last;
      inside = tile.inside;
      next = tile.next;
      known = freed-known;
      prior = freed-prior;
      apart = tile.apart;
      alone = λ x there free d free'. absurd (freed-alone x there free free');
      footer = λ x there free d. freed-footer x there free;
    }

    size_read : run_size marked c ≡ H.size c
    size_read =
        let (whole, large, inside, c_whole, c_real) = size_facts in
        (header-fields marked c (H.size c) true (H.before c) marked-words.0 whole (omega arith)).0

    freed_sound :
        (i a : ℕ)
        → 0 < tally a (put_list lists place (c ∷ lists place) i)
        → (H.there a ≡ true) × (H.free a ≡ true) × (i ≡ bin_index_for (H.size a)) × (a ≢ 0)
    freed_sound i a listed = elim (ℕ_discrete a c) [
      | yes e ↦
          let at_place : i ≡ bin_index_for (H.size c) = elim (ℕ_discrete i place) [
            | yes same ↦ same ∙ ap bin_index_for size_read
            | no d ↦
                let miss : (i == place) ≡ false = ground arith in
                let before : 0 < tally a (lists i) = rw miss at listed in
                absurd ((is.runs.sound i a before).3 e)
          ] in
          subst
            (λ z. (H.there z ≡ true) × (H.free z ≡ true) × (i ≡ bin_index_for (H.size z)) × (z ≢ 0))
            (sym e) (is.here, is.counts_free, at_place, size_facts.4)
      | no d ↦
          let before : 0 < tally a (lists i) = elim (ℕ_discrete i place) [
            | yes e ↦ rw e (ground (arith, rw (e, ==_self place) at listed))
            | no d' ↦ let miss : (i == place) ≡ false = ground arith in rw miss at listed
          ] in
          let (there, free, bin, d') = is.runs.sound i a before in
          (there, free, bin, (tile.aligned a there).2)
    ]

    freed_complete :
        (a : ℕ)
        → H.there a ≡ true
        → H.free a ≡ true
        → a ≢ 0
        → 0 < tally a (put_list lists place (c ∷ lists place) (bin_index_for (H.size a)))
    freed_complete a there free real = elim (ℕ_discrete a c) [
      | yes e ↦
          let here : (bin_index_for (H.size a) == place) ≡ true =
            rw (e, size_read) (==_self (bin_index_for (H.size c))) in
          rw here (ground arith)
      | no d ↦
          let held = is.runs.complete a there free d in
          elim (ℕ_discrete (bin_index_for (H.size a)) place) [
            | yes e ↦ rw (e, ==_self place) (ground (arith, rw e at held))
            | no d' ↦
                let miss : (bin_index_for (H.size a) == place) ≡ false = ground arith in
                rw miss held
          ]
    ]

    freed-IsRunner : IsRunner result freed (put_list lists place (c ∷ lists place))
    freed-IsRunner = record {
      tiled = freed-IsTiled;
      listed = result-listed;
      sound = freed_sound;
      complete = freed_complete;
    }

    -- Where neither neighbour is free, the run becomes a free one.
    pub make_free-IsRunner :
        (lists' : ℕ → List ℕ) × IsRunner (make_free r c (H.size c)) freed lists'
        × ((b : ℕ) → IsClients H c b → (make_free r c (H.size c)).memory b ≡ r.memory b)
    unfolding make_free
    make_free-IsRunner = rw is.preceded (_, freed-IsRunner, λ b cl. clients b cl)
      where
        clients : (b : ℕ) → IsClients H c b → result.memory b ≡ r.memory b
        clients b cl =
            let n_whole = (tile.aligned n behind).0 in
            outer-frame cl.at b cl.there cl.other (omega (arith, cl.from)) (inr cl.below)
              (clients-NoLink r H lists c is.runs b cl)
              (λ e. elim (dec_lt cl.at n) [
                | yes lt ↦
                    let ends = tile.apart cl.at n cl.there behind lt in omega (arith, cl.below)
                | no ge ↦ omega (arith, cl.from)
              ])
