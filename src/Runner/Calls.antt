-- ===== src/Runner/Calls.antt =====
-- lib/runner.hpp: the runner's calls that divide and join runs.
use allocazam.Prelude.{
  ℕ, zero, suc, ◌+◌, ◌-◌, Bool, true, false, Option, none, some, ltb, leb, ◌==◌, not, ◌&&◌, ◌||◌,
  if◌then◌else◌, List, [], ◌∷◌,
}
use allocazam.Word.{size_mod, wrap, checked_add}
use allocazam.Memory.{Memory, write}
use allocazam.Runner.Sizes.{run_header_size, min_free_run_size, normalized_run_bytes_for_payload}
use allocazam.Runner.Runs.{
  ChunkNode, Runner, split_remainder_threshold, owner_word, header_from_payload,
  payload_from_header, run_size, is_free, prev_is_free, set_header, mark_prev_free, next_run,
  prev_run, write_footer, link_free, unlink_free, chunk_bytes,
}

abbrev pub with_memory : Runner → Memory → Runner
with_memory r mem = record r { memory = mem }

-- `if (next != nullptr) _set_prev_free(next, prev_free);`
abbrev pub mark_next : Memory → ℕ → Bool → Memory
mark_next mem h prev_free =
    let next = next_run mem h in if next == 0 then mem else mark_prev_free mem next prev_free

-- A run of `total` bytes at `h`, which is in no bin, becomes an allocated run of `needed` bytes and a
-- free one of the rest, if the rest is worth it, and else an allocated run of all.
unfoldable pub split_run : Runner → (h needed total : ℕ) → Bool → Runner
split_run r h needed total prev_free =
    let rem_size = wrap (total + (size_mod - needed)) in
    if leb (min_free_run_size + split_remainder_threshold) rem_size
    then (let rem = h + needed in
        let headed =
          set_header (set_header r.memory h needed false prev_free) rem rem_size true false in
        let linked = link_free (with_memory r (write_footer headed rem)) rem in
        with_memory linked (mark_next linked.memory rem true))
    else with_memory r (mark_next (set_header r.memory h total false prev_free) h false)

abbrev pub own : Runner → ℕ → Runner
own r h = with_memory r (write r.memory (owner_word h) r.self)

-- `_allocate_from_free_run`, with the payload that it returns.
unfoldable pub allocate_from_free_run : Runner → (h needed : ℕ) → Runner × ℕ
allocate_from_free_run r h needed =
    let old_size = run_size r.memory h in
    let prev_free = prev_is_free r.memory h in
    (own (split_run (unlink_free r h) h needed old_size prev_free) h, payload_from_header h)

-- The joining of `deallocate_bytes` with the next run, with the size so far.
unfoldable pub join_next : Runner → (current current_size : ℕ) → Runner × ℕ
join_next r current current_size =
    let next = next_run r.memory current in
    if not (next == 0) && is_free r.memory next
    then (let unlinked = unlink_free r next in
        (unlinked, wrap (current_size + run_size unlinked.memory next)))
    else (r, current_size)

-- And with the run before it: also the header where the joined run starts.
unfoldable pub join_prev : Runner → (current current_size : ℕ) → Runner × ℕ × ℕ
join_prev r current current_size =
    let prev = prev_run r.memory current in
    if prev_is_free r.memory current && not (prev == 0) && is_free r.memory prev
    then (let unlinked = unlink_free r prev in
        (unlinked, prev, wrap (current_size + run_size unlinked.memory prev)))
    else (r, current, current_size)

-- The end of `deallocate_bytes`.
unfoldable pub make_free : Runner → (current current_size : ℕ) → Runner
make_free r current current_size =
    let headed = set_header r.memory current current_size true (prev_is_free r.memory current) in
    let marked = mark_next (write_footer headed current) current true in
    link_free (with_memory r marked) current

unfoldable pub deallocate_bytes : Runner → ℕ → Runner
deallocate_bytes r p =
    if p == 0
    then r
    else (let current = header_from_payload p in
        let (r₁, size₁) = join_next r current (run_size r.memory current) in
        let (r₂, current₂, size₂) = join_prev r₁ current size₁ in make_free r₂ current₂ size₂)

-- `expand` where the run after the current one is free and large enough.
unfoldable pub expand_into : Runner → (current needed combined_size next : ℕ) → Runner × ℕ
expand_into r current needed combined_size next =
    let prev_free = prev_is_free r.memory current in
    let grown =
      own (split_run (unlink_free r next) current needed combined_size prev_free) current in
    (grown, run_size grown.memory current - run_header_size)

-- `expand` where the payload is too small for the `needed` run.
unfoldable pub expand_run : Runner → (current needed : ℕ) → Runner × ℕ
unfolding expand_into
expand_run r current needed =
    let current_run_size = run_size r.memory current in
    let current_payload = current_run_size - run_header_size in
    let next = next_run r.memory current in
    if next == 0 || not (is_free r.memory next)
    then (r, current_payload)
    else elim (checked_add current_run_size (run_size r.memory next)) [
      | none ↦ (r, current_payload)
      | some combined_size ↦
          if ltb combined_size needed
          then (r, current_payload)
          else expand_into r current needed combined_size next
    ]

unfoldable pub expand : Runner → (p min_new_bytes : ℕ) → Runner × ℕ
unfolding expand_run
expand r p min_new_bytes =
    if p == 0
    then (r, 0)
    else (let current = header_from_payload p in
        let current_payload = run_size r.memory current - run_header_size in
        if leb min_new_bytes current_payload
        then (r, current_payload)
        else elim (normalized_run_bytes_for_payload min_new_bytes) [
          | none ↦ (r, current_payload)
          | some needed ↦ expand_run r current needed
        ])

-- `remote_push`, as the one step that its exchange makes it: the link is the payload's first word.
unfoldable pub remote_push : Runner → ℕ → Runner
remote_push r p = record r { memory = write r.memory p r.remote_head; remote_head = p }

-- The loop of `_drain_remote`, over at most as many runs as it is given.
unfoldable pub replay : ℕ → Runner → ℕ → Option Runner
replay zero r head = if head == 0 then some r else none
replay (suc runs) r head = elim (head == 0) [
  | true ↦ some r
  | false ↦ replay runs (deallocate_bytes r head) (r.memory head)
]

-- There are no more runs than bytes.
unfoldable pub drain_remote : Runner → Option (Runner × Bool)
drain_remote r =
    if r.remote_head == 0
    then some (r, false)
    else elim (replay (chunk_bytes r.chunks) (record r { remote_head = 0 }) r.remote_head) [
      | none ↦ none
      | some q ↦ some (q, true)
    ]

-- `owner_of`
unfoldable pub owner_of : Memory → ℕ → ℕ
owner_of mem payload = mem (payload - 8)

unfoldable pub in_chunks : List ChunkNode → ℕ → Bool
in_chunks [] b = false
in_chunks (c ∷ cs) b = if leb c.begin b && ltb b (c.begin + c.bytes) then true else in_chunks cs b

unfoldable pub owns_run : Runner → ℕ → Bool
unfolding in_chunks
owns_run r p = if p == 0 then false else in_chunks r.chunks p
