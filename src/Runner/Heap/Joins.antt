-- ===== src/Runner/Heap/Joins.antt =====
-- The two joining steps of `deallocate_bytes`.
use native.Mathlib.Decide.{ℕ_discrete}
use allocazam.Prelude.{
  ℕ, ◌+◌, ◌-◌, ◌≤◌, ◌<◌, ◌≡◌, ◌≢◌, refl, sym, ap, ◌∙◌, List, inl, inr, true, false, arith, ◌==◌,
  Bool-cases,
}
use allocazam.Memory.{Memory}
use allocazam.Runner.Runs.{Runner, run_size, next_run, prev_run}
use allocazam.Runner.Calls.{join_next, join_prev}
use allocazam.Runner.Heap.{Heap, IsTiled, IsHole, fields}
use allocazam.Runner.Heap.Take.{unlinked, rest}
use allocazam.Runner.Heap.Join.{joined, absorb, set-same}
use allocazam.Runner.Heap.Grown.{IsJoined, stays, joined-IsGrown}

module _ (r : Runner) (H : Heap) (lists : ℕ → List ℕ) (h : ℕ) (is : IsHole r H lists h) where
  tile : IsTiled r.memory H h
  tile = is.runs.tiled

  abbrev n : ℕ
  n = h + H.size h

  behind : H.there n ≡ true
  behind = tile.next h is.here (omega (arith, is.some_size))

  -- Behind a free run no other one is free but the one that is being changed.
  pub used_behind :
      (x : ℕ)
      → H.there x ≡ true
      → H.free x ≡ true
      → x ≢ h
      → x + H.size x ≢ h
      → H.free (x + H.size x) ≡ false
  used_behind x there free other not_h = elim (Bool-cases (H.free (x + H.size x))) [
    | inl free' ↦ absurd (not_h (tile.alone x there free other free'))
    | inr used ↦ used
  ]

  size_kept :
      {mem : Memory}
      → ((x b : ℕ) → H.there x ≡ true → x ≤ b → b < x + 16 → mem b ≡ r.memory b)
      → (x : ℕ) → H.there x ≡ true
      → run_size mem x ≡ run_size r.memory x
  unfolding run_size
  size_kept same x there = rw (same x x there (omega arith) (omega arith)) refl

  -- The run behind, as long as the header is up to date.
  pub join_next-IsJoined :
      run_size r.memory h ≡ H.size h
      → let (r', size) = join_next r h (H.size h) in IsJoined r r' H h h size
  unfolding join_next next_run
  join_next-IsJoined read =
      let (size_n, free_n, before_n) =
        fields r H lists h is.runs n behind (omega (arith, is.some_size)) in
      elim (ℕ_discrete (H.size n) 0) [
        | yes none ↦
            let test : (H.size n == 0) ≡ true = ground arith in
            rw (read, size_n, test)
              (record {
                heap = H;
                lists = lists;
                hole = is;
                grown = stays r H h;
                added = refl;
                next_used = tile.last n behind none;
              })
        | no some_bytes ↦
            let test : (H.size n == 0) ≡ false = ground arith in
            let test' : (n == 0) ≡ false = ground (arith, is.some_size) in
            elim (Bool-cases (H.free n)) [
              | inr used ↦
                  rw (read, size_n, test, test', free_n, used)
                    (record {
                      heap = H;
                      lists = lists;
                      hole = is;
                      grown = stays r H h;
                      added = refl;
                      next_used = used;
                    })
              | inl free ↦
                  let other : n ≢ h = omega (arith, is.some_size) in
                  let un = unlinked r H lists h is.runs n behind free other in
                  let large : 48 ≤ H.size n = elim (tile.sized n behind) [
                    | inl empty ↦ absurd (some_bytes empty)
                    | inr enough ↦ enough
                  ] in
                  let ends_at : h + (H.size h + H.size n) ≡ n + H.size n = omega arith in
                  let hole =
                    absorb r H lists (rest r H lists h is.runs n behind free other) h n h n
                      (inl (refl, refl)) is un is.here behind is.counts_free is.some_size large refl
                      is.preceded in
                  rw (read, size_n, test, test', free_n, free)
                    (record {
                      heap = joined H h n (H.size h + H.size n);
                      lists = rest r H lists h is.runs n behind free other;
                      hole = hole;
                      grown =
                          joined-IsGrown r H lists (rest r H lists h is.runs n behind free other) h
                            n h n is.here behind refl is.counts_free free (inl refl) un;
                      added =
                          rw
                            (
                              set-same H.size h (H.size h + H.size n),
                              size_kept un.headers n behind,
                              size_n,
                            )
                            (omega (arith, tile.inside n behind));
                      next_used = rw (set-same H.size h (H.size h + H.size n)) (
                          ap H.free ends_at
                          ∙ used_behind n behind free other (omega (arith, is.some_size)));
                    })
            ]
      ]

  -- And before it neither.
  unpreceded :
      (p : ℕ) → H.there p ≡ true → H.free p ≡ true → p ≢ h → p + H.size p ≡ h → H.before p ≡ false
  unpreceded p there free other place = elim (Bool-cases (H.before p)) [
    | inr none ↦ none
    | inl some_free ↦
        let some_bytes : H.size p ≢ 0 = λ empty. let used = tile.last p there empty in cc in
        let (q, there_q, free_q, ends_q) = tile.prior p there some_bytes some_free in
        let not_h : q ≢ h = λ e. omega (arith, ap H.size e, is.some_size) in
        absurd (other (sym ends_q ∙ tile.alone q there_q free_q not_h (ap H.free ends_q ∙ free)))
  ]

  -- The run before.
  pub join_prev-IsJoined :
      (size : ℕ)
      → size ≡ H.size h
      → H.free n ≡ false
      → let (r', c, size') = join_prev r h size in
        (joined : IsJoined r r' H h c size') × (joined.heap.before c ≡ false)
  unfolding join_prev prev_run
  join_prev-IsJoined size e next_used = elim (Bool-cases (H.before h)) [
    | inr none ↦
        rw (is.preceded, none)
          (
            record {
              heap = H;
              lists = lists;
              hole = is;
              grown = stays r H h;
              added = e;
              next_used = next_used;
            },
            none,
          )
    | inl some_free ↦
        let (p, there, free, place) =
          tile.prior h is.here (omega (arith, is.some_size)) some_free in
        let large : 48 ≤ H.size p = elim (tile.sized p there) [
          | inl empty ↦ absurd (let used = tile.last p there empty in cc)
          | inr enough ↦ enough
        ] in
        let other : p ≢ h = omega arith in
        let footer : r.memory (h - 8) ≡ H.size p = rw place at (tile.footer p there free other) in
        let real = (tile.aligned p there).2 in
        let test : (H.size p == 0) ≡ false = ground arith in
        let at_p : h - H.size p ≡ p = omega arith in
        let test' : (p == 0) ≡ false = ground arith in
        let (size_p, free_p, before_p) = fields r H lists h is.runs p there other in
        let un = unlinked r H lists h is.runs p there free other in
        let hole =
          absorb r H lists (rest r H lists h is.runs p there free other) h p p h (inr (refl, refl))
            is un there is.here free large is.some_size place before_p in
        rw (is.preceded, some_free, footer, test, at_p, test', free_p, free)
          (
            record {
              heap = joined H p h (H.size p + H.size h);
              lists = rest r H lists h is.runs p there free other;
              hole = hole;
              grown =
                  joined-IsGrown r H lists (rest r H lists h is.runs p there free other) h p p h
                    there is.here place free is.counts_free (inr refl) un;
              added =
                  rw (set-same H.size p (H.size p + H.size h), size_kept un.headers p there, size_p)
                    (omega (arith, tile.inside h is.here));
              next_used =
                  rw (set-same H.size p (H.size p + H.size h))
                    (ap H.free (ends_at p place) ∙ next_used);
            },
            unpreceded p there free other place,
          )
  ]
    where
      ends_at : (p : ℕ) → p + H.size p ≡ h → p + (H.size p + H.size h) ≡ n
      ends_at p place = omega arith
