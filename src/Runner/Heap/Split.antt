-- ===== src/Runner/Heap/Split.antt =====
-- The run that is being changed is divided: its first part is allocated, the rest is being changed.
use native.Mathlib.Decide.{ℕ_discrete, dec_lt}
use allocazam.Prelude.{
  ℕ, ◌+◌, ◌-◌, ◌%◌, ◌≤◌, ◌<◌, ◌≡◌, ◌≢◌, refl, sym, ap, subst, ◌∙◌, List, ◌⊎◌, inl, inr, true, false,
  arith,
}
use allocazam.Word.{size_max}
use allocazam.Memory.{Memory}
use allocazam.Runner.Sizes.{pack}
use allocazam.Runner.Runs.{Runner, set_header, next_link, prev_link}
use allocazam.Runner.Calls.{with_memory}
use allocazam.Runner.Heap.{
  Heap, Inside, set, IsTiled, IsHole, IsClients, header-fields, header-NoLink, inner-NoLink,
}
use allocazam.Runner.Heap.Join.{set-same, set-other}
use allocazam.Runner.Heap.Free.{listed-frame}

module _ (r : Runner) (H : Heap) (lists : ℕ → List ℕ) (h needed : ℕ) (is : IsHole r H lists h)
    (needed_whole : needed % 16 ≡ 0) (enough : 48 ≤ needed) (left : needed + 48 ≤ H.size h) where
  abbrev pub rem : ℕ
  rem = h + needed

  abbrev pub rem_size : ℕ
  rem_size = H.size h - needed

  abbrev n : ℕ
  n = h + H.size h

  abbrev pub parted : Heap
  parted = record {
    there = set H.there rem true;
    size = set (set H.size h needed) rem rem_size;
    free = set (set H.free h false) rem true;
    before = set H.before rem false;
  }

  abbrev pub headed : Memory
  headed = set_header (set_header r.memory h needed false (H.before h)) rem rem_size true false

  tile : IsTiled r.memory H h
  tile = is.runs.tiled

  facts : (h % 16 ≡ 0) × (H.size h % 16 ≡ 0) × (h ≢ 0) × (n + 16 ≤ size_max)
  facts = (
    (tile.aligned h is.here).0,
    (tile.aligned h is.here).1,
    (tile.aligned h is.here).2,
    omega (arith, tile.inside h is.here),
  )

  pub parted-words :
      (headed h ≡ pack needed false (H.before h))
      × (headed rem ≡ pack rem_size true false)
      × ((b : ℕ) → b ≢ h → b ≢ rem → headed b ≡ r.memory b)
  unfolding set_header
  parted-words = (ground arith, ground arith, λ b d d'. ground arith)

  -- No header stands in the middle of the run.
  fresh : (x : ℕ) → H.there x ≡ true → x ≢ rem
  fresh x there e = let ends = tile.apart h x is.here there (omega arith) in omega arith

  known_there : (x : ℕ) → x ≢ rem → parted.there x ≡ H.there x
  known_there x d = set-other H.there rem x true d

  old : (x : ℕ) → parted.there x ≡ true → x ≢ rem → H.there x ≡ true
  old x there d = sym (known_there x d) ∙ there

  kept : (x : ℕ) → H.there x ≡ true → parted.there x ≡ true
  kept x there = known_there x (fresh x there) ∙ there

  size_rem : parted.size rem ≡ rem_size
  size_rem = set-same (set H.size h needed) rem rem_size

  size_h : parted.size h ≡ needed
  size_h = set-other (set H.size h needed) rem h rem_size (omega arith) ∙ set-same H.size h needed

  size_old : (x : ℕ) → x ≢ rem → x ≢ h → parted.size x ≡ H.size x
  size_old x d d' =
      set-other (set H.size h needed) rem x rem_size d ∙ set-other H.size h x needed d'

  free_rem : parted.free rem ≡ true
  free_rem = set-same (set H.free h false) rem true

  free_h : parted.free h ≡ false
  free_h = set-other (set H.free h false) rem h true (omega arith) ∙ set-same H.free h false

  free_old : (x : ℕ) → x ≢ rem → x ≢ h → parted.free x ≡ H.free x
  free_old x d d' = set-other (set H.free h false) rem x true d ∙ set-other H.free h x false d'

  before_old : (x : ℕ) → x ≢ rem → parted.before x ≡ H.before x
  before_old x d = set-other H.before rem x false d

  -- A header of the divided heap: the first part, the rest, or another run's.
  Part : ℕ → Type 0
  Part x =
      ((x ≡ rem) × (parted.size x ≡ rem_size) × (x + parted.size x ≡ n))
      ⊎ ((x ≡ h) × (parted.size x ≡ needed) × (x + parted.size x ≡ rem))
      ⊎ ((x ≢ rem) × (x ≢ h) × (H.there x ≡ true) × (parted.size x ≡ H.size x))

  part : (x : ℕ) → parted.there x ≡ true → Part x
  unfolding Part
  part x there = elim (ℕ_discrete x rem) [
    | yes e ↦ inl (e, ap parted.size e ∙ size_rem, omega (arith, ap parted.size e, size_rem))
    | no d ↦ elim (ℕ_discrete x h) [
      | yes e ↦ inr (inl (e, ap parted.size e ∙ size_h, omega (arith, ap parted.size e, size_h)))
      | no d' ↦ inr (inr (d, d', old x there d, size_old x d d'))
    ]
  ]

  pub parted-Inside : Inside parted H
  unfolding Part
  parted-Inside b (a, there, from, below) = elim (part a there) [
    | inl (e, size, ends) ↦ (h, is.here, omega (arith, facts), omega (arith, facts))
    | inr (inl (e, size, ends)) ↦ (h, is.here, omega arith, omega arith)
    | inr (inr (d, d', old_there, size)) ↦ (a, old_there, from, omega arith)
  ]

  -- Where another run ends.
  ends_apart : (x : ℕ) → H.there x ≡ true → x ≢ h → x + H.size x ≢ rem
  ends_apart x there d e = elim (dec_lt x h) [
    | yes lt ↦ let ends = tile.apart x h there is.here lt in omega arith
    | no ge ↦ let ends = tile.apart h x is.here there (omega arith) in omega arith
  ]

  behind : H.there n ≡ true
  behind = tile.next h is.here (omega arith)

  parted-word :
      (x : ℕ)
      → parted.there x ≡ true
      → x ≢ rem
      → headed x ≡ pack (parted.size x) (parted.free x) (parted.before x)
  unfolding Part
  parted-word x there d = elim (part x there) [
    | inl (e, _, _) ↦ absurd (d e)
    | inr (inl (e, _, _)) ↦
        subst (λ z. headed z ≡ pack (parted.size z) (parted.free z) (parted.before z)) (sym e)
          (rw (size_h, free_h, before_old h (omega arith)) parted-words.0)
    | inr (inr (_, d', it, same)) ↦
        rw (same, free_old x d d', before_old x d) (parted-words.2 x d' d ∙ tile.word x it d')
  ]

  parted-next :
      (x : ℕ) → parted.there x ≡ true → parted.size x ≢ 0 → parted.there (x + parted.size x) ≡ true
  unfolding Part
  parted-next x there ne = elim (part x there) [
    | inl (e, _, end) ↦ rw end (kept n behind)
    | inr (inl (e, _, end)) ↦ rw end (set-same H.there rem true)
    | inr (inr (d, d', it, same)) ↦ rw same (kept (x + H.size x) (tile.next x it (rw same at ne)))
  ]

  parted-known :
      (x : ℕ)
      → parted.there x ≡ true
      → parted.size x ≢ 0
      → x ≢ rem
      → parted.size (x + parted.size x) ≢ 0
      → parted.before (x + parted.size x) ≡ parted.free x
  unfolding Part
  parted-known x there ne d some_next = elim (part x there) [
    | inl (e, _, _) ↦ absurd (d e)
    | inr (inl (e, _, end)) ↦ rw end (set-same H.before rem false ∙ sym (ap parted.free e ∙ free_h))
    | inr (inr (_, d', it, same)) ↦
        let apart = ends_apart x it d' in
        let some_next' : H.size (x + H.size x) ≢ 0 = elim (ℕ_discrete (x + H.size x) h) [
          | yes e ↦ rw e (omega arith)
          | no d'' ↦ λ none.
              some_next
                (ap (λ z. parted.size (x + z)) same ∙ size_old (x + H.size x) apart d'' ∙ none)
        ] in
        rw (same, free_old x d d')
          (before_old (x + H.size x) apart ∙ tile.known x it (rw same at ne) d' some_next')
  ]

  parted-prior :
      (x : ℕ)
      → parted.there x ≡ true
      → parted.size x ≢ 0
      → parted.before x ≡ true
      → (p : ℕ) × (parted.there p ≡ true) × (parted.free p ≡ true) × (p + parted.size p ≡ x)
  unfolding Part
  parted-prior x there ne before = elim (ℕ_discrete x rem) [
    | yes e ↦ absurd (
        let none : parted.before x ≡ false = ap parted.before e ∙ set-same H.before rem false in cc)
    | no d ↦
        let it = old x there d in
        let some_bytes : H.size x ≢ 0 = elim (ℕ_discrete x h) [
          | yes e ↦ rw e (omega arith)
          | no d' ↦ λ none. ne (size_old x d d' ∙ none)
        ] in
        let (p, there_p, free, place) =
          tile.prior x it some_bytes (sym (before_old x d) ∙ before) in
        elim (ℕ_discrete p h) [
          | yes e ↦ (rem, set-same H.there rem true, free_rem, omega (arith, size_rem, ap H.size e))
          | no d' ↦
              let d'' = fresh p there_p in
              (p, kept p there_p, free_old p d'' d' ∙ free, omega (arith, size_old p d'' d'))
        ]
  ]

  parted-apart :
      (x y : ℕ) → parted.there x ≡ true → parted.there y ≡ true → x < y → x + parted.size x ≤ y
  unfolding Part
  parted-apart x y there there' lt = elim (part x there) [
    | inl (e, _, end) ↦ elim (part y there') [
      | inl (e', _, _) ↦ absurd (omega arith)
      | inr (inl (e', _, _)) ↦ absurd (omega arith)
      | inr (inr (_, d', it, _)) ↦ let ends = tile.apart h y is.here it (omega arith) in omega arith
    ]
    | inr (inl (e, _, end)) ↦ elim (part y there') [
      | inl (e', _, _) ↦ omega arith
      | inr (inl (e', _, _)) ↦ absurd (omega arith)
      | inr (inr (_, d', it, _)) ↦ let ends = tile.apart h y is.here it (omega arith) in omega arith
    ]
    | inr (inr (d, d', it, same)) ↦ elim (part y there') [
      | inl (e', _, _) ↦ elim (dec_lt x h) [
        | yes below ↦ let ends = tile.apart x h it is.here below in omega arith
        | no ge ↦ let ends = tile.apart h x is.here it (omega arith) in omega arith
      ]
      | inr (inl (e', _, _)) ↦ let ends = tile.apart x h it is.here (omega arith) in omega arith
      | inr (inr (_, _, it', _)) ↦ let ends = tile.apart x y it it' lt in omega arith
    ]
  ]

  parted-alone :
      (x : ℕ)
      → parted.there x ≡ true
      → parted.free x ≡ true
      → x ≢ rem
      → parted.free (x + parted.size x) ≡ true
      → x + parted.size x ≡ rem
  unfolding Part
  parted-alone x there free d free' = elim (part x there) [
    | inl (e, _, _) ↦ absurd (d e)
    | inr (inl (e, _, end)) ↦ end
    | inr (inr (_, d', it, same)) ↦
        let apart = ends_apart x it d' in
        let free_next : parted.free (x + H.size x) ≡ true = rw same at free' in
        let not_h : x + H.size x ≢ h = λ e.
          absurd
            (let used : parted.free (x + H.size x) ≡ false = ap parted.free e ∙ free_h in cc) in
        absurd (
          not_h (
            tile.alone x it (sym (free_old x d d') ∙ free) d'
              (sym (free_old (x + H.size x) apart not_h) ∙ free_next)))
  ]

  parted-footer :
      (x : ℕ)
      → parted.there x ≡ true
      → parted.free x ≡ true
      → x ≢ rem
      → headed (x + parted.size x - 8) ≡ parted.size x
  unfolding Part
  parted-footer x there free d = elim (part x there) [
    | inl (e, _, _) ↦ absurd (d e)
    | inr (inl (e, _, _)) ↦
        absurd (let used : parted.free x ≡ false = ap parted.free e ∙ free_h in cc)
    | inr (inr (_, d', it, same)) ↦
        let x_whole = tile.aligned x it in
        let h_whole = facts in
        let free_x = sym (free_old x d d') ∙ free in
        let some_bytes : H.size x ≢ 0 = λ empty. absurd (let used = tile.last x it empty in cc) in
        let large = tile.sized x it in
        rw same (
          parted-words.2 (x + H.size x - 8) (omega arith) (omega arith)
          ∙ tile.footer x it free_x d')
  ]

  -- The rest is being changed, with its header written.
  pub parted-IsHole : IsHole (with_memory r headed) parted lists rem
  unfolding Part
  parted-IsHole = record {
    runs = record {
      tiled = record {
        word = parted-word;
        aligned = λ x there. elim (part x there) [
          | inl (e, size, _) ↦ let f = facts in (omega arith, omega arith, omega arith)
          | inr (inl (e, size, _)) ↦ let f = facts in (omega arith, omega arith, omega arith)
          | inr (inr (_, _, it, same)) ↦ let f = tile.aligned x it in (f.0, omega arith, f.2)
        ];
        sized = λ x there. elim (part x there) [
          | inl (e, size, _) ↦ inr (omega arith)
          | inr (inl (e, size, _)) ↦ inr (omega arith)
          | inr (inr (_, _, it, same)) ↦ rw same (tile.sized x it)
        ];
        last = λ x there empty. elim (part x there) [
          | inl (e, size, _) ↦ absurd (omega arith)
          | inr (inl (e, size, _)) ↦ absurd (omega arith)
          | inr (inr (d, d', it, same)) ↦ free_old x d d' ∙ tile.last x it (sym same ∙ empty)
        ];
        inside = λ x there. elim (part x there) [
          | inl (e, _, end) ↦ let f = facts in omega arith
          | inr (inl (e, _, end)) ↦ let f = facts in omega arith
          | inr (inr (_, _, it, same)) ↦ rw same (tile.inside x it)
        ];
        next = parted-next;
        known = parted-known;
        prior = parted-prior;
        apart = parted-apart;
        alone = parted-alone;
        footer = parted-footer;
      };
      listed =
          listed-frame r headed lists
            (λ i x listed.
              let at_h =
                header-NoLink r H lists h is.runs h h is.here (omega arith) (omega arith) i x
                  listed in
              let at_rem =
                inner-NoLink r H lists h is.runs h rem is.here (inr (inl refl)) (omega arith)
                  (omega arith) i x listed in
              (
                parted-words.2 (next_link x) (λ e. at_h.0 (sym e)) (λ e. at_rem.0 (sym e)),
                parted-words.2 (prev_link x) (λ e. at_h.1 (sym e)) (λ e. at_rem.1 (sym e)),
              ))
            is.runs.listed;
      sound = λ i a listed.
          let (there, free, bin, d) = is.runs.sound i a listed in
          let d' = fresh a there in
          (kept a there, free_old a d' d ∙ free, rw (size_old a d' d) bin, d');
      complete = λ a there free d.
          let it = old a there d in
          let d' : a ≢ h =
            λ e. absurd (let used : parted.free a ≡ false = ap parted.free e ∙ free_h in cc) in
          rw (size_old a d d') (is.runs.complete a it (sym (free_old a d d') ∙ free) d');
    };
    here = set-same H.there rem true;
    counts_free = free_rem;
    some_size = rw size_rem (omega arith);
    preceded =
        let f = facts in
        (header-fields headed rem rem_size true false parted-words.1 (omega arith) (omega arith)).2
        ∙ sym (set-same H.before rem false);
  }

  -- The words of the clients are as before.
  pub parted-IsClients :
      (b : ℕ) → IsClients H h b → (headed b ≡ r.memory b) × IsClients parted rem b
  parted-IsClients b cl =
      let d = fresh cl.at cl.there in
      (
        parted-words.2 b
            (λ e. elim (dec_lt cl.at h) [
              | yes lt ↦
                  let ends = tile.apart cl.at h cl.there is.here lt in omega (arith, cl.below)
              | no ge ↦ omega (arith, cl.from)
            ])
            (λ e. elim (dec_lt cl.at h) [
              | yes lt ↦
                  let ends = tile.apart cl.at h cl.there is.here lt in omega (arith, cl.below)
              | no ge ↦
                  let other = cl.other in
                  let ends = tile.apart h cl.at is.here cl.there (omega arith) in
                  omega (arith, cl.from)
            ]),
        record {
          at = cl.at;
          there = kept cl.at cl.there;
          used = free_old cl.at d cl.other ∙ cl.used;
          other = d;
          from = cl.from;
          below = rw (size_old cl.at d cl.other) cl.below;
        },
      )

  pub parted-facts :
      (parted.size h ≡ needed)
      × (parted.free h ≡ false)
      × (parted.there h ≡ true)
      × (parted.before rem ≡ false)
      × (rem + parted.size rem ≡ n)
      × (parted.free n ≡ H.free n)
      × (parted.size rem ≡ rem_size)
  parted-facts = (
    size_h,
    free_h,
    kept h is.here,
    set-same H.before rem false,
    omega (arith, size_rem),
    free_old n (fresh n behind) (omega arith),
    size_rem,
  )

  -- The other headers of allocated runs.
  pub parted-others :
      (a : ℕ)
      → a ≢ h
      → a ≢ rem
      → (parted.there a ≡ H.there a) × (parted.free a ≡ H.free a) × (parted.size a ≡ H.size a)
  parted-others a d d' = (known_there a d', free_old a d' d, size_old a d' d)

  pub rem-free : (parted.free rem ≡ true) × ((x : ℕ) → H.there x ≡ true → x ≢ rem)
  rem-free = (free_rem, fresh)
