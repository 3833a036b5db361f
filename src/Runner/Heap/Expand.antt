-- ===== src/Runner/Heap/Expand.antt =====
-- `expand` grows an allocated run over the free run behind it.
use native.Mathlib.Decide.{ℕ_discrete, dec_lt}
use allocazam.Prelude.{
  ℕ, ◌+◌, ◌-◌, ◌%◌, ◌≤◌, ◌<◌, ◌≡◌, ◌≢◌, refl, sym, ap, subst, ◌∙◌, List, ◌⊎◌, inl, inr, true, false,
  some, ltb, leb, arith, ◌==◌, if◌then◌else◌, Bool-cases,
}
use allocazam.Word.{size_max, checked_add}
use allocazam.Word.Checked.{checked_add-eq}
use allocazam.Runner.Sizes.Payload.{normalized-least}
use allocazam.Runner.Runs.{Runner, run_size, next_run, unlink_free, payload_from_header}
use allocazam.Runner.Calls.{own, split_run, expand_into, expand_run, expand}
use allocazam.Runner.Heap.{Inside, Heap, set, IsRunner, IsHole, IsClients, fields}
use allocazam.Runner.Heap.Take.{Unlinked, unlinked, rest}
use allocazam.Runner.Heap.Join.{joined, absorb, set-same, set-other}
use allocazam.Runner.Heap.Open.{open_used}
use allocazam.Runner.Heap.Grown.{Used, IsGrown, joined-IsGrown}
use allocazam.Runner.Heap.Joins.{used_behind}
use allocazam.Runner.Heap.Allocate.{IsTaken, IsKept, split_run-IsTaken, own-IsTaken}

-- What `expand` of the run at `h` leaves, with the payload bytes that it reports: no fewer than before;
-- as many as were asked for, if anything has changed; and the payload and the other allocated runs
-- as they were.
pub record IsExpanded (r r' : Runner) (H : Heap) (h least reported : ℕ) : Type 0 where
  pub heap : Heap
  pub lists : ℕ → List ℕ
  pub runner : IsRunner r' heap lists
  pub size : ℕ
  pub holds : Used heap h size
  pub reports : reported + 16 ≡ size
  pub grows : H.size h ≤ size
  pub asked : (r' ≡ r) ⊎ (least ≤ reported)
  pub inside : Inside heap H
  pub used : (a bytes : ℕ) → Used heap a bytes → a ≢ h → Used H a bytes
  pub uses : (a bytes : ℕ) → Used H a bytes → a ≢ h → Used heap a bytes
  pub memory : (b : ℕ) → IsClients H h b → r'.memory b ≡ r.memory b
  pub payload : (b : ℕ) → h + 16 ≤ b → b < h + H.size h → r'.memory b ≡ r.memory b

module _ (r : Runner) (H : Heap) (lists : ℕ → List ℕ) (h : ℕ) (is : IsRunner r H lists)
    (here : H.there h ≡ true) (used : H.free h ≡ false) (some_bytes : H.size h ≢ 0) where
  abbrev opened : Heap
  opened = record H { free = set H.free h true }

  hole : IsHole r opened lists h
  hole = open_used r H lists is h here used some_bytes

  real_h : h ≢ 0
  real_h = (is.tiled.aligned h here).2

  read : run_size r.memory h ≡ H.size h
  read = (fields r H lists 0 is h here real_h).0

  abbrev n : ℕ
  n = h + H.size h

  unchanged : (least : ℕ) → IsExpanded r r H h least (H.size h - 16)
  unchanged least = record {
    heap = H;
    lists = lists;
    runner = is;
    size = H.size h;
    holds = (here, used, refl);
    reports = omega (arith, hole.some_size);
    grows = omega arith;
    asked = inl refl;
    inside = λ b w. w;
    used = λ a bytes u d. u;
    uses = λ a bytes u d. u;
    memory = λ b cl. refl;
    payload = λ b from below. refl;
  }

  module _ (needed least : ℕ) (whole : needed % 16 ≡ 0) (enough : 48 ≤ needed)
      (fits : least + 16 ≤ needed) (more : H.size h < needed) (free : opened.free n ≡ true)
      (room : needed ≤ H.size h + H.size n) where
    behind : H.there n ≡ true
    behind = is.tiled.next h here some_bytes

    other : n ≢ h
    other = omega (arith, hole.some_size)

    large : 48 ≤ H.size n
    large = elim (is.tiled.sized n behind) [
      | inl empty ↦ absurd (let unused = hole.runs.tiled.last n behind empty in cc)
      | inr many ↦ many
    ]

    un : Unlinked r opened lists (rest r opened lists h hole.runs n behind free other) h n
    un = unlinked r opened lists h hole.runs n behind free other

    abbrev both : Heap
    both = joined opened h n (H.size h + H.size n)

    grown_hole :
        IsHole (unlink_free r n) both (rest r opened lists h hole.runs n behind free other) h
    grown_hole =
        absorb r opened lists (rest r opened lists h hole.runs n behind free other) h n h n
          (inl (refl, refl)) hole un here behind hole.counts_free hole.some_size large refl
          hole.preceded

    growth : IsGrown r (unlink_free r n) opened both h h
    growth =
        joined-IsGrown r opened lists (rest r opened lists h hole.runs n behind free other) h n h n
          here behind refl hole.counts_free free (inl refl) un

    both_size : both.size h ≡ H.size h + H.size n
    both_size = set-same H.size h (H.size h + H.size n)

    next_used : both.free (h + both.size h) ≡ false
    next_used =
        let place : h + both.size h ≡ n + H.size n = omega (arith, both_size) in
        ap both.free place
        ∙ used_behind r opened lists h hole n behind free other (omega (arith, hole.some_size))

    abbrev split : Runner
    split = split_run (unlink_free r n) h needed (both.size h) (both.before h)

    taken : IsTaken (unlink_free r n) split both h needed × IsKept (unlink_free r n) split h needed
    taken =
        split_run-IsTaken (unlink_free r n) both
          (rest r opened lists h hole.runs n behind free other) h needed grown_hole whole enough
          (omega (arith, both_size)) next_used

    owned : IsTaken (unlink_free r n) (own split h) both h needed
    owned =
        own-IsTaken (unlink_free r n) split both lists h h needed grown_hole.runs.tiled
          grown_hole.here taken.0

    size_read : run_size (own split h).memory h ≡ owned.size
    size_read =
        (fields (own split h) owned.heap owned.lists 0 owned.runner h owned.taken.0 real_h).0
        ∙ owned.taken.2

    open_client : (b : ℕ) → IsClients H h b → IsClients opened h b
    open_client b cl = record {
      at = cl.at;
      there = cl.there;
      used = set-other H.free h cl.at true cl.other ∙ cl.used;
      other = cl.other;
      from = cl.from;
      below = cl.below;
    }

    expand_into-IsExpanded :
        let (r', reported) = expand_into r h needed (H.size h + H.size n) n in
        IsExpanded r r' H h least reported
    unfolding expand_into
    expand_into-IsExpanded =
        rw (hole.preceded, sym both_size)
          (subst (λ z. IsExpanded r (own split h) H h least (z - 16)) (sym size_read)
            (record {
              heap = owned.heap;
              lists = owned.lists;
              runner = owned.runner;
              size = owned.size;
              holds = owned.taken;
              reports = omega (arith, owned.enough);
              grows = omega (arith, owned.enough);
              asked = inr (omega (arith, owned.enough));
              inside = λ b w. growth.inside b (owned.inside b w);
              used = λ a bytes u d.
                  let (there, unused, same) = growth.used a bytes (owned.used a bytes u d) in
                  (there, sym (set-other H.free h a true d) ∙ unused, same);
              uses = λ a bytes (there, unused, same) d.
                  owned.uses a bytes
                    (growth.uses a bytes (there, set-other H.free h a true d ∙ unused, same)) d;
              memory = λ b cl.
                  let cl' = open_client b cl in
                  owned.memory b (growth.clients b cl') ∙ growth.memory b cl';
              payload = λ b from below.
                  let miss : (h + 8 == b) ≡ false = ground arith in
                  rw miss (
                    taken.1 b from (omega arith)
                    ∙ un.inner h b here (inr (inl refl)) (omega arith) below);
            }))

  next_is : next_run r.memory h ≡ (if H.size n == 0 then 0 else n)
  unfolding next_run
  next_is =
      let behind = is.tiled.next h here some_bytes in
      let (size_n, _, _) = fields r H lists 0 is n behind (is.tiled.aligned n behind).2 in
      rw (read, size_n) refl

  expand_run-IsExpanded :
      (needed least : ℕ)
      → needed % 16 ≡ 0
      → 48 ≤ needed
      → least + 16 ≤ needed
      → H.size h < needed
      → let (r', reported) = expand_run r h needed in IsExpanded r r' H h least reported
  unfolding expand_run
  expand_run-IsExpanded needed least whole enough fits more =
      let behind = is.tiled.next h here some_bytes in
      let real_n : n ≢ 0 = (is.tiled.aligned n behind).2 in
      let (size_n, free_n, _) = fields r H lists 0 is n behind real_n in
      let end = is.tiled.inside n behind in
      elim (ℕ_discrete (H.size n) 0) [
        | yes last ↦
            let next : next_run r.memory h ≡ 0 = rw (next_is, last) refl in
            rw (next, read) (unchanged least)
        | no some_next ↦
            let test : (H.size n == 0) ≡ false = ground arith in
            let next : next_run r.memory h ≡ n = rw (next_is, test) refl in
            let test' : (n == 0) ≡ false = ground arith in
            elim (Bool-cases (H.free n)) [
              | inr used_n ↦ rw (next, test', free_n, used_n, read) (unchanged least)
              | inl free_next ↦
                  let other_n : n ≢ h = omega (arith, hole.some_size) in
                  let below : leb (H.size h + H.size n) size_max ≡ true = ground arith in
                  let sum : checked_add (H.size h) (H.size n) ≡ some (H.size h + H.size n) =
                    rw (checked_add-eq (H.size h) (H.size n) (omega arith) (omega arith), below)
                      refl in
                  elim (dec_lt (H.size h + H.size n) needed) [
                    | yes lt ↦
                        let test'' : ltb (H.size h + H.size n) needed ≡ true = ground arith in
                        rw (next, test', free_n, free_next, size_n, read, sum, test'', read)
                          (unchanged least)
                    | no ge ↦
                        let test'' : ltb (H.size h + H.size n) needed ≡ false = ground arith in
                        rw (next, test', free_n, free_next, size_n, read, sum, test'', next)
                          (expand_into-IsExpanded needed least whole enough fits more
                            (set-other H.free h n true other_n ∙ free_next) (omega arith))
                  ]
            ]
      ]

-- Where the runs tile the chunks and the bins list the free ones, `expand` of an allocated run's
-- payload keeps that so and reports what the payload then holds, which is no less than before. It
-- changes nothing, or the payload holds at least the bytes that were asked for; the bytes of the
-- payload stay, and the other allocated runs and what is in them behind the first word.
pub expand-IsExpanded :
    (r : Runner) (H : Heap) (lists : ℕ → List ℕ) (h least : ℕ)
    → IsRunner r H lists
    → H.there h ≡ true
    → H.free h ≡ false
    → H.size h ≢ 0
    → least ≤ size_max
    → let (r', reported) = expand r (payload_from_header h) least in
      IsExpanded r r' H h least reported
unfolding expand
expand-IsExpanded r H lists h least is here used some_bytes small =
    let test : (h + 16 == 0) ≡ false = ground arith in
    let back : h + 16 - 16 ≡ h = omega arith in
    let same = read r H lists h is here used some_bytes in
    elim (dec_lt (H.size h - 16) least) [
      | no enough ↦
          let test' : leb least (H.size h - 16) ≡ true = ground arith in
          rw (test, back, same, test') (unchanged r H lists h is here used some_bytes least)
      | yes short ↦
          let test' : leb least (H.size h - 16) ≡ false = ground arith in
          elim (normalized-least least small) [
            | inl (none_fits, _) ↦
                rw (test, back, same, test', none_fits, back, same)
                  (unchanged r H lists h is here used some_bytes least)
            | inr (needed, gives, whole, fits, large, _, _) ↦
                let grown =
                  expand_run-IsExpanded r H lists h is here used some_bytes needed least whole large
                    fits (omega arith) in
                rw (test, back, same, test', gives)
                  (subst
                    (λ c.
                      IsExpanded r (expand_run r c needed).0 H h least (expand_run r c needed).1)
                    (sym back) grown)
          ]
    ]
