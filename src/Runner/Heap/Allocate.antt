-- ===== src/Runner/Heap/Allocate.antt =====
-- The division of a run, `_allocate_from_free_run` and `expand`.
use native.Mathlib.Decide.{dec_lt}
use allocazam.Prelude.{
  ℕ, ◌+◌, ◌-◌, ◌%◌, ◌^◌, ◌≤◌, ◌<◌, ◌≡◌, ◌≢◌, refl, sym, ap, subst, ◌∙◌, List, ◌⊎◌, inl, inr, true,
  false, leb, arith, ◌==◌, ==_self, Bool-cases,
}
use allocazam.Memory.{Memory, write}
use allocazam.Runner.Sizes.{pack, bin_index_for}
use allocazam.Runner.Runs.{
  Runner, prev_is_free, set_header, write_footer, link_free, unlink_free, owner_word,
  payload_from_header,
}
use allocazam.Runner.Runs.Listed.{head-listed}
use allocazam.Runner.Calls.{
  with_memory, mark_next, make_free, split_run, own, allocate_from_free_run,
}
use allocazam.Runner.Heap.{
  Inside, Heap, IsTiled, IsRunner, IsHole, IsClients, fields, header-fields, header-NoLink,
}
use allocazam.Runner.Heap.Free.{headed-words, listed-frame}
use allocazam.Runner.Heap.Take.{Tiled-frame}
use allocazam.Runner.Heap.Freed.{freed, make_free-IsRunner}
use allocazam.Runner.Heap.Grown.{Used}
use allocazam.Runner.Heap.Open.{open_free, open_free-clients, others, never_both, real}
use allocazam.Runner.Heap.Whole.{whole, whole-IsRunner, whole-words}
use allocazam.Runner.Heap.Split.{
  parted, headed, parted-IsHole, parted-words, parted-Inside, parted-IsClients, parted-facts,
  parted-others, rem-free,
}
use allocazam.Runner.Heap.Commute.{link-commutes}

-- If 112 bytes are left over, the run is divided and the rest is a free run; else it is taken whole.
abbrev pub IsRest : (H heap : Heap) (h needed size : ℕ) → Type 0
IsRest H heap h needed size =
    ((needed + 112 ≤ H.size h)
      × (size ≡ needed)
      × (heap.there (h + needed) ≡ true)
      × (heap.free (h + needed) ≡ true)
      × (heap.size (h + needed) ≡ H.size h - needed))
    ⊎ ((H.size h < needed + 112) × (size ≡ H.size h))

-- What a call that allocates the run at `h` leaves: the run is allocated with at least the size that
-- is needed, the rest is free if it is worth it, the other allocated runs are the same ones, with what the clients have in them.
pub record IsTaken (r r' : Runner) (H : Heap) (h needed : ℕ) : Type 0 where
  pub heap : Heap
  pub lists : ℕ → List ℕ
  pub runner : IsRunner r' heap lists
  pub size : ℕ
  pub taken : Used heap h size
  pub enough : needed ≤ size
  pub rest : IsRest H heap h needed size
  pub inside : Inside heap H
  pub used : (a bytes : ℕ) → Used heap a bytes → a ≢ h → Used H a bytes
  pub uses : (a bytes : ℕ) → Used H a bytes → a ≢ h → Used heap a bytes
  pub memory : (b : ℕ) → IsClients H h b → r'.memory b ≡ r.memory b

-- The payload of the run, as far as it is needed, is as before.
abbrev pub IsKept : (r r' : Runner) (h needed : ℕ) → Type 0
IsKept r r' h needed = (b : ℕ) → h + 16 ≤ b → b < h + needed → r'.memory b ≡ r.memory b

write-twice : (mem : Memory) (a v : ℕ) → write (write mem a v) a v ≡ write mem a v
write-twice mem a v i b = same b i
  where
    same : (b : ℕ) → write (write mem a v) a v b ≡ write mem a v b
    same b = ground arith

module _ (r : Runner) (H : Heap) (lists : ℕ → List ℕ) (h needed : ℕ) (is : IsHole r H lists h)
    (needed_whole : needed % 16 ≡ 0) (least : 48 ≤ needed) (fits : needed ≤ H.size h)
    (next_used : H.free (h + H.size h) ≡ false) where
  not_h : (a bytes : ℕ) → Used H a bytes → a ≢ h
  not_h a bytes (there, used, same) e =
      absurd (let both : H.free a ≡ H.free h = ap H.free e in let free = is.counts_free in cc)

  taken_whole :
      H.size h < needed + 112
      → let r' =
          with_memory r (mark_next (set_header r.memory h (H.size h) false (H.before h)) h false) in
        IsTaken r r' H h needed × IsKept r r' h needed
  taken_whole small =
      let (runner, kept) = whole-IsRunner r H lists h is in
      (
        record {
          heap = whole r H lists h is;
          lists = lists;
          runner = runner;
          size = H.size h;
          taken = (is.here, rw (==_self h) refl, refl);
          enough = fits;
          rest = inr (small, refl);
          inside = λ b w. w;
          used = λ a bytes (there, used, same) d.
              (there, (let miss : (a == h) ≡ false = ground arith in rw miss at used), same);
          uses = λ a bytes (there, used, same) d.
              (there, (let miss : (a == h) ≡ false = ground arith in rw miss used), same);
          memory = kept;
        },
        λ b from below. (whole-words r H lists h is).2 b (omega arith) (omega arith),
      )

  module _ (left : needed + 48 ≤ H.size h) where
    abbrev rem : ℕ
    rem = h + needed

    abbrev two_headed : Memory
    two_headed = headed r H lists h needed is needed_whole least left

    abbrev two : Heap
    two = parted r H lists h needed is needed_whole least left

    hole : IsHole (with_memory r two_headed) two lists rem
    hole = parted-IsHole r H lists h needed is needed_whole least left

    about :
        (two.size h ≡ needed)
        × (two.free h ≡ false)
        × (two.there h ≡ true)
        × (two.before rem ≡ false)
        × (rem + two.size rem ≡ h + H.size h)
        × (two.free (h + H.size h) ≡ H.free (h + H.size h))
        × (two.size rem ≡ H.size h - needed)
    about = parted-facts r H lists h needed is needed_whole least left

    abbrev divided : Runner
    divided =
        let linked = link_free (with_memory r (write_footer two_headed rem)) rem in
        with_memory linked (mark_next linked.memory rem true)

    first_whole : r.bins (bin_index_for (H.size h - needed)) % 16 ≡ 0
    first_whole =
        let idx = bin_index_for (H.size h - needed) in
        elim (head-listed r.memory 0 (r.bins idx) (lists idx) (is.runs.listed.linked idx)) [
          | inl null ↦ rw null refl
          | inr there ↦ is.runs.listed.aligned idx (r.bins idx) there
        ]

    -- The steps are those of freeing the rest.
    divided-make_free : divided ≡ make_free (with_memory r two_headed) rem (two.size rem)
    unfolding make_free set_header
    divided-make_free =
        let tile = is.runs.tiled in
        let facts = tile.aligned h is.here in
        let inside = tile.inside h is.here in
        let rem_bytes = about.6 in
        let words =
          headed-words (set_header r.memory h needed false (H.before h)) rem (H.size h - needed)
            false (omega arith) (omega arith) (omega arith) in
        let read =
          (header-fields (write_footer two_headed rem) rem (H.size h - needed) true false words.0
            (omega arith) (omega arith)).0 in
        let unpreceded : prev_is_free two_headed rem ≡ false = hole.preceded ∙ about.3 in
        link-commutes r (write_footer two_headed rem) rem (H.size h - needed) read (omega arith)
          (omega arith) (omega arith) first_whole
        ∙ rw
            (
              unpreceded,
              rem_bytes,
              write-twice (write r.memory h (pack needed false (H.before h))) rem
                  (pack (H.size h - needed) true false),
            )
            refl

    taken_divided :
        needed + 112 ≤ H.size h → IsTaken r divided H h needed × IsKept r divided h needed
    taken_divided worth =
        let (lists', runner, kept) =
          make_free-IsRunner (with_memory r two_headed) two lists rem hole
            (ap two.free about.4 ∙ about.5 ∙ next_used) about.3 in
        let (rem_free, fresh) = rem-free r H lists h needed is needed_whole least left in
        subst (λ r'. IsTaken r r' H h needed × IsKept r r' h needed) (sym divided-make_free)
          (
            record {
              heap = freed (with_memory r two_headed) two lists rem hole;
              lists = lists';
              runner = runner;
              size = needed;
              taken = (about.2, about.1, about.0);
              enough = omega arith;
              rest = inl (worth, refl, hole.here, rem_free, about.6);
              inside = parted-Inside r H lists h needed is needed_whole least left;
              used = λ a bytes (there, used, same) d.
                  let d' : a ≢ rem =
                    λ e. absurd (let free : two.free a ≡ true = ap two.free e ∙ rem_free in cc) in
                  let (t, f, z) =
                    parted-others r H lists h needed is needed_whole least left a d d' in
                  (sym t ∙ there, sym f ∙ used, sym z ∙ same);
              uses = λ a bytes (there, used, same) d.
                  let (t, f, z) =
                    parted-others r H lists h needed is needed_whole least left a d
                      (fresh a there) in
                  (t ∙ there, f ∙ used, z ∙ same);
              memory = λ b cl.
                  let (same, cl') =
                    parted-IsClients r H lists h needed is needed_whole least left b cl in
                  kept b cl' ∙ same;
            },
            λ b from below.
                let size_h = about.0 in
                kept b (record {
                  at = h;
                  there = about.2;
                  used = about.1;
                  other = omega arith;
                  from = omega arith;
                  below = rw size_h below;
                })
                ∙ (parted-words r H lists h needed is needed_whole least left).2 b (omega arith)
                    (omega arith),
          )

  -- The run that is being changed becomes an allocated one, of all its bytes or, if the rest is worth
  -- it, of the needed ones.
  pub split_run-IsTaken :
      let r' = split_run r h needed (H.size h) (H.before h) in
      IsTaken r r' H h needed × IsKept r r' h needed
  unfolding split_run
  split_run-IsTaken =
      let inside = is.runs.tiled.inside h is.here in
      let rest : (H.size h + (2 ^ 64 - needed)) % 2 ^ 64 ≡ H.size h - needed = omega arith in
      elim (Bool-cases (leb 112 (H.size h - needed))) [
        | inl worth ↦ rw (rest, worth) (taken_divided (ground arith) (ground arith))
        | inr small ↦ rw (rest, small) (taken_whole (ground arith))
      ]

-- The owner word of an allocated run is none of the allocator's own.
own-IsRunner :
    (r : Runner) (H : Heap) (lists : ℕ → List ℕ) (h size : ℕ)
    → IsRunner r H lists
    → Used H h size
    → IsRunner (own r h) H lists
own-IsRunner r H lists h size is (here, used, same) =
    let tile = is.tiled in
    let h_whole = (tile.aligned h here).0 in
    record {
      tiled =
          Tiled-frame r.memory (own r h).memory H 0
            (λ x there d. let x_whole = (tile.aligned x there).0 in ground arith)
            (λ x there free d.
              let x_whole = tile.aligned x there in
              let large = tile.sized x there in
              let apart : x ≢ h =
                λ e. absurd (let both : H.free x ≡ H.free h = ap H.free e in cc) in
              let some_bytes : H.size x ≢ 0 =
                λ empty. absurd (let unused = tile.last x there empty in cc) in
              let away : owner_word h ≢ x + H.size x - 8 = elim (dec_lt x h) [
                | yes lt ↦ let ends = tile.apart x h there here lt in omega arith
                | no ge ↦ omega arith
              ] in
              ground arith)
            tile;
      listed =
          listed-frame r (own r h).memory lists
            (λ i x listed.
              let (next, prev) =
                header-NoLink r H lists 0 is h (owner_word h) here (omega arith) (omega arith) i x
                  listed in
              (ground arith, ground arith))
            is.listed;
      sound = is.sound;
      complete = is.complete;
    }

-- A call that takes a run, and then writes its owner.
pub own-IsTaken :
    (r r' : Runner) (H : Heap) (lists : ℕ → List ℕ) (hole h needed : ℕ)
    → IsTiled r.memory H hole
    → H.there h ≡ true
    → IsTaken r r' H h needed
    → IsTaken r (own r' h) H h needed
own-IsTaken r r' H lists hole h needed tile here is = record {
  heap = is.heap;
  lists = is.lists;
  runner = own-IsRunner r' is.heap is.lists h is.size is.runner is.taken;
  size = is.size;
  taken = is.taken;
  enough = is.enough;
  rest = is.rest;
  inside = is.inside;
  used = is.used;
  uses = is.uses;
  memory = λ b cl.
      let away : owner_word h ≢ b = λ e. elim (dec_lt cl.at h) [
        | yes lt ↦ let ends = tile.apart cl.at h cl.there here lt in omega (arith, cl.below)
        | no ge ↦ let other = cl.other in omega (arith, cl.from)
      ] in
      let miss : (owner_word h == b) ≡ false = ground arith in rw miss (is.memory b cl);
}

-- Where the runs tile the chunks and the bins list the free ones, `_allocate_from_free_run` takes a
-- free run out of its bin and allocates it, with at least the needed bytes: if 112 bytes are left
-- over, of the needed ones, and the rest is a free run; else of all its bytes. The runs still tile the chunks, no two neighbours are free, and
-- the bins list the free runs; the other allocated runs are the same ones as before, and no word
-- of theirs behind the first is written. The payload follows the header, which names the runner.
pub allocate_from_free_run-IsTaken :
    (r : Runner) (H : Heap) (lists : ℕ → List ℕ) (h needed : ℕ)
    → IsRunner r H lists
    → H.there h ≡ true
    → H.free h ≡ true
    → needed % 16 ≡ 0
    → 48 ≤ needed
    → needed ≤ H.size h
    → let (r', p) = allocate_from_free_run r h needed in
      IsTaken r r' H h needed × (p ≡ payload_from_header h) × (r'.memory (owner_word h) ≡ r'.self)
unfolding allocate_from_free_run
allocate_from_free_run-IsTaken r H lists h needed is here free whole least fits =
    let real_h = real r H lists is h here in
    let (size, _, before) = fields r H lists 0 is h here real_h in
    let hole = open_free r H lists is h here free in
    let next_used : H.free (h + H.size h) ≡ false = elim (Bool-cases (H.free (h + H.size h))) [
      | inl free' ↦ absurd (never_both r H lists is h here free free')
      | inr used ↦ used
    ] in
    let split =
      split_run-IsTaken (unlink_free r h) H (others r H lists is h here free) h needed hole whole
        least fits next_used in
    let owned =
      own-IsTaken (unlink_free r h) (split_run (unlink_free r h) h needed (H.size h) (H.before h)) H
        lists h h needed hole.runs.tiled here split.0 in
    rw (size, before)
      (
        record {
          heap = owned.heap;
          lists = owned.lists;
          runner = owned.runner;
          size = owned.size;
          taken = owned.taken;
          enough = owned.enough;
          rest = owned.rest;
          inside = owned.inside;
          used = owned.used;
          uses = owned.uses;
          memory = λ b cl. owned.memory b cl ∙ open_free-clients r H lists is h here free b cl;
        },
        refl,
        rw (==_self (h + 8)) refl,
      )
