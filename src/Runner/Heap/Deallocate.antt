-- ===== src/Runner/Heap/Deallocate.antt =====
-- `deallocate_bytes` frees an allocated run, joined with its neighbours.
use allocazam.Prelude.{ℕ, ◌+◌, ◌-◌, ◌≡◌, ◌≢◌, sym, ap, subst, ◌∙◌, List, true, false, arith, ◌==◌}
use allocazam.Runner.Runs.{Runner, run_size, payload_from_header}
use allocazam.Runner.Calls.{join_next, join_prev, make_free, deallocate_bytes}
use allocazam.Runner.Heap.{Inside, Heap, set, IsRunner, IsHole, IsClients, fields}
use allocazam.Runner.Heap.Join.{set-other}
use allocazam.Runner.Heap.Open.{open_used}
use allocazam.Runner.Heap.Freed.{freed, make_free-IsRunner}
use allocazam.Runner.Heap.Grown.{Used}
use allocazam.Runner.Heap.Joins.{join_next-IsJoined, join_prev-IsJoined}

-- What a call on the run at `h` leaves of the other allocated runs: the same ones, with what the
-- clients have in them.
pub record IsFreed (r r' : Runner) (H : Heap) (h : ℕ) : Type 0 where
  pub heap : Heap
  pub lists : ℕ → List ℕ
  pub runner : IsRunner r' heap lists
  pub inside : Inside heap H
  pub used : (a size : ℕ) → Used heap a size → Used H a size × (a ≢ h)
  pub uses : (a size : ℕ) → Used H a size → a ≢ h → Used heap a size
  pub memory : (b : ℕ) → IsClients H h b → r'.memory b ≡ r.memory b

-- Freeing the run that is being changed, whose header is up to date.
free_hole :
    (r : Runner) (H : Heap) (lists : ℕ → List ℕ) (h : ℕ)
    → IsHole r H lists h
    → run_size r.memory h ≡ H.size h
    → h ≢ 0
    → IsFreed r (deallocate_bytes r (payload_from_header h)) H h
unfolding deallocate_bytes
free_hole r H lists h is read real =
    let test : (h + 16 == 0) ≡ false = ground arith in
    let back : h + 16 - 16 ≡ h = omega arith in
    let r₁ = (join_next r h (H.size h)).0 in
    let size₁ = (join_next r h (H.size h)).1 in
    let one = join_next-IsJoined r H lists h is read in
    let (two, unpreceded) =
      join_prev-IsJoined r₁ one.heap one.lists h one.hole size₁ one.added one.next_used in
    let r₂ = (join_prev r₁ h size₁).0 in
    let c = (join_prev r₁ h size₁).1 in
    let (lists', runner, kept) =
      make_free-IsRunner r₂ two.heap two.lists c two.hole two.next_used unpreceded in
    let not_h : (a size : ℕ) → Used H a size → a ≢ h = λ a size (there, used, same) e.
      absurd (let both : H.free a ≡ H.free h = ap H.free e in let free = is.counts_free in cc) in
    rw (test, back, read)
      (subst (λ size. IsFreed r (make_free r₂ c size) H h) (sym two.added)
        (record {
          heap = freed r₂ two.heap two.lists c two.hole;
          lists = lists';
          runner = runner;
          inside = λ b w. one.grown.inside b (two.grown.inside b w);
          used = λ a size u.
              let before = one.grown.used a size (two.grown.used a size u) in
              (before, not_h a size before);
          uses = λ a size u d. two.grown.uses a size (one.grown.uses a size u);
          memory = λ b cl.
              let cl₁ = one.grown.clients b cl in
              let cl₂ = two.grown.clients b cl₁ in
              kept b cl₂ ∙ two.grown.memory b cl₁ ∙ one.grown.memory b cl;
        }))

-- Where the runs tile the chunks and the bins list the free ones, `deallocate_bytes` of the payload of
-- an allocated run frees it, joined with its free neighbours: the runs again tile the chunks, no two
-- neighbours are free, and the bins list the free runs; the other allocated runs are the same ones
-- as before, and no word of theirs behind the first is written.
pub deallocate_bytes-IsFreed :
    (r : Runner) (H : Heap) (lists : ℕ → List ℕ) (h : ℕ)
    → IsRunner r H lists
    → H.there h ≡ true
    → H.free h ≡ false
    → H.size h ≢ 0
    → IsFreed r (deallocate_bytes r (payload_from_header h)) H h
deallocate_bytes-IsFreed r H lists h is here used some_bytes =
    let r' = deallocate_bytes r (payload_from_header h) in
    let opened = open_used r H lists is h here used some_bytes in
    let real_h = (is.tiled.aligned h here).2 in
    let read = (fields r H lists 0 is h here real_h).0 in
    let freed_hole =
      free_hole r (record H { free = set H.free h true }) lists h opened read real_h in
    record {
      heap = freed_hole.heap;
      lists = freed_hole.lists;
      runner = freed_hole.runner;
      inside = freed_hole.inside;
      used = λ a size u.
          let ((there, unused, same), d) = freed_hole.used a size u in
          ((there, sym (set-other H.free h a true d) ∙ unused, same), d);
      uses = λ a size (there, unused, same) d.
          freed_hole.uses a size (there, set-other H.free h a true d ∙ unused, same) d;
      memory = λ b cl. freed_hole.memory b (record {
        at = cl.at;
        there = cl.there;
        used = set-other H.free h cl.at true cl.other ∙ cl.used;
        other = cl.other;
        from = cl.from;
        below = cl.below;
      });
    }
