-- ===== src/Runner/Heap/Whole.antt =====
-- The run that is being changed is allocated whole.
use native.Mathlib.Decide.{ℕ_discrete, dec_lt}
use allocazam.Prelude.{
  ℕ, ◌+◌, ◌-◌, ◌≡◌, ◌≢◌, refl, sym, ap, subst, ◌∙◌, List, true, false, arith, ◌==◌, ==_self,
  if◌then◌else◌,
}
use allocazam.Memory.{Memory}
use allocazam.Runner.Sizes.{pack}
use allocazam.Runner.Runs.{Runner, set_header, next_link, prev_link}
use allocazam.Runner.Calls.{with_memory, mark_next}
use allocazam.Runner.Heap.{
  Heap, set, IsTiled, IsRunner, IsHole, IsClients, header-fields, header-NoLink,
}
use allocazam.Runner.Heap.Join.{set-same, set-other}
use allocazam.Runner.Heap.Free.{listed-frame, mark_next-words}

module _ (r : Runner) (H : Heap) (lists : ℕ → List ℕ) (h : ℕ) (is : IsHole r H lists h) where
  abbrev pub n : ℕ
  n = h + H.size h

  abbrev pub whole : Heap
  whole = record H {
    free = set H.free h false;
    before = set H.before n (if H.size n == 0 then H.before n else false);
  }

  abbrev pub headed : Memory
  headed = set_header r.memory h (H.size h) false (H.before h)

  abbrev pub marked : Memory
  marked = mark_next headed h false

  tile : IsTiled r.memory H h
  tile = is.runs.tiled

  behind : H.there n ≡ true
  behind = tile.next h is.here (omega (arith, is.some_size))

  pub whole-words :
      (marked h ≡ pack (H.size h) false (H.before h))
      × (marked n ≡ pack (H.size n) (H.free n) (if H.size n == 0 then H.before n else false))
      × ((b : ℕ) → b ≢ h → b ≢ n → marked b ≡ r.memory b)
  unfolding set_header
  whole-words =
      let facts = tile.aligned h is.here in
      let inside = tile.inside h is.here in
      let header : headed h ≡ pack (H.size h) false (H.before h) = rw (==_self h) refl in
      let same : (b : ℕ) → b ≢ h → headed b ≡ r.memory b = λ b d. ground arith in
      let read =
        (header-fields headed h (H.size h) false (H.before h) header facts.1 (omega arith)).0 in
      let word_n =
        same n (omega (arith, is.some_size)) ∙ tile.word n behind (omega (arith, is.some_size)) in
      let (marks, kept) =
        mark_next-words headed h (H.size h) (H.size n) (H.free n) (H.before n) false read word_n
          (tile.aligned n behind).1 (omega (arith, tile.inside n behind))
          (omega (arith, is.some_size)) in
      (kept h (omega (arith, is.some_size)) ∙ header, marks, λ b d d'. kept b d' ∙ same b d)

  ends_apart : (x : ℕ) → H.there x ≡ true → H.size x ≢ 0 → x ≢ h → x + H.size x ≢ n
  ends_apart x there ne d e = elim (dec_lt x h) [
    | yes lt ↦ let ends = tile.apart x h there is.here lt in omega (arith, is.some_size)
    | no ge ↦ let ends = tile.apart h x is.here there (omega arith) in omega arith
  ]

  others : (x : ℕ) → x ≢ h → whole.free x ≡ H.free x
  others x d = set-other H.free h x false d

  marks : (x : ℕ) → x ≢ n → whole.before x ≡ H.before x
  marks x d = set-other H.before n x (if H.size n == 0 then H.before n else false) d

  not_here : (x : ℕ) → whole.free x ≡ true → x ≢ h
  not_here x free e =
      absurd (let used : whole.free x ≡ false = ap whole.free e ∙ set-same H.free h false in cc)

  h_apart : h ≢ n
  h_apart = omega (arith, is.some_size)

  whole-word :
      (x : ℕ)
      → H.there x ≡ true
      → x ≢ 0
      → marked x ≡ pack (H.size x) (whole.free x) (whole.before x)
  whole-word x there real = elim (ℕ_discrete x h) [
    | yes e ↦
        subst (λ z. marked z ≡ pack (H.size z) (whole.free z) (whole.before z)) (sym e)
          (rw (==_self h, marks h h_apart) (whole-words.0))
    | no d ↦ elim (ℕ_discrete x n) [
      | yes e ↦
          subst (λ z. marked z ≡ pack (H.size z) (whole.free z) (whole.before z)) (sym e)
            (rw (others n (λ same. h_apart (sym same)), ==_self n) (whole-words.1))
      | no d' ↦ rw (others x d, marks x d') (whole-words.2 x d d' ∙ tile.word x there d)
    ]
  ]

  whole-known :
      (x : ℕ)
      → H.there x ≡ true
      → H.size x ≢ 0
      → x ≢ 0
      → H.size (x + H.size x) ≢ 0
      → whole.before (x + H.size x) ≡ whole.free x
  whole-known x there some_bytes real some_next = elim (ℕ_discrete x h) [
    | yes e ↦
        subst (λ z. H.size (z + H.size z) ≢ 0 → whole.before (z + H.size z) ≡ whole.free z) (sym e)
          (λ ne.
            let test : (H.size n == 0) ≡ false = ground arith in
            rw (==_self n, test, ==_self h) refl)
          some_next
    | no d ↦ rw (others x d) (
        marks (x + H.size x) (ends_apart x there some_bytes d)
        ∙ tile.known x there some_bytes d some_next)
  ]

  whole-prior :
      (x : ℕ)
      → H.there x ≡ true
      → H.size x ≢ 0
      → whole.before x ≡ true
      → (p : ℕ) × (H.there p ≡ true) × (whole.free p ≡ true) × (p + H.size p ≡ x)
  whole-prior x there some_bytes before = elim (ℕ_discrete x n) [
    | yes e ↦
        let test : (H.size n == 0) ≡ false = ground (arith, ap H.size e) in
        let marked_used : whole.before x ≡ false =
          ap whole.before e
          ∙ set-same H.before n (if H.size n == 0 then H.before n else false)
          ∙ rw test refl in
        absurd (cc)
    | no d ↦
        let (p, there_p, free, place) = tile.prior x there some_bytes (sym (marks x d) ∙ before) in
        let not_h : p ≢ h = λ e. d (sym place ∙ ap (λ z. z + H.size z) e) in
        (p, there_p, others p not_h ∙ free, place)
  ]

  never_both :
      (x : ℕ) → H.there x ≡ true → whole.free x ≡ true → whole.free (x + H.size x) ≡ true → ⊥
  never_both x there free free' =
      let d = not_here x free in
      let d' = not_here (x + H.size x) free' in
      d' (tile.alone x there (sym (others x d) ∙ free) d (sym (others (x + H.size x) d') ∙ free'))

  whole-footer :
      (x : ℕ) → H.there x ≡ true → whole.free x ≡ true → marked (x + H.size x - 8) ≡ H.size x
  whole-footer x there free =
      let d = not_here x free in
      let free_x = sym (others x d) ∙ free in
      let x_whole = tile.aligned x there in
      let h_whole = tile.aligned h is.here in
      let some_bytes = tile.sized x there in
      let empty_used : H.size x ≢ 0 = λ empty. absurd (let used = tile.last x there empty in cc) in
      whole-words.2 (x + H.size x - 8) (omega arith) (omega arith) ∙ tile.footer x there free_x d

  -- The runner when its header is written and the run behind knows.
  pub whole-IsRunner :
      IsRunner (with_memory r marked) whole lists
      × ((b : ℕ) → IsClients H h b → marked b ≡ r.memory b)
  whole-IsRunner = (
    record {
      tiled = record {
        word = whole-word;
        aligned = tile.aligned;
        sized = tile.sized;
        last = λ x there empty.
            let d : x ≢ h = λ e. omega (arith, ap H.size e, is.some_size) in
            others x d ∙ tile.last x there empty;
        inside = tile.inside;
        next = tile.next;
        known = whole-known;
        prior = whole-prior;
        apart = tile.apart;
        alone = λ x there free d free'. absurd (never_both x there free free');
        footer = λ x there free d. whole-footer x there free;
      };
      listed =
          listed-frame r marked lists
            (λ i x listed.
              let at_h =
                header-NoLink r H lists h is.runs h h is.here (omega arith) (omega arith) i x
                  listed in
              let at_n =
                header-NoLink r H lists h is.runs n n behind (omega arith) (omega arith) i x
                  listed in
              (
                whole-words.2 (next_link x) (λ e. at_h.0 (sym e)) (λ e. at_n.0 (sym e)),
                whole-words.2 (prev_link x) (λ e. at_h.1 (sym e)) (λ e. at_n.1 (sym e)),
              ))
            is.runs.listed;
      sound = λ i a listed.
          let (there, free, bin, d) = is.runs.sound i a listed in
          (there, others a d ∙ free, bin, (tile.aligned a there).2);
      complete = λ a there free d.
          let d' = not_here a free in is.runs.complete a there (sym (others a d') ∙ free) d';
    },
    λ b cl.
        whole-words.2 b
          (λ e. elim (dec_lt cl.at h) [
            | yes lt ↦ let ends = tile.apart cl.at h cl.there is.here lt in omega (arith, cl.below)
            | no ge ↦ omega (arith, cl.from)
          ])
          (λ e. elim (dec_lt cl.at n) [
            | yes lt ↦ let ends = tile.apart cl.at n cl.there behind lt in omega (arith, cl.below)
            | no ge ↦ omega (arith, cl.from)
          ]),
  )
