-- ===== src/Runner/Runs.antt =====
-- lib/runner.hpp: runs in memory, by their headers, footers and links, and the bins that list the
-- free ones.
pub mod Links
pub mod Listed
pub mod Bins
use allocazam.Prelude.{
  ℕ, zero, suc, ◌+◌, ◌-◌, Bool, Option, none, some, List, [], ◌∷◌, ltb, leb, ◌==◌, not, ◌||◌,
  if◌then◌else◌,
}
use allocazam.Memory.{Memory, write}
use allocazam.Runner.Sizes.{
  run_header_size, linear_bin_count, bin_count, flag_is_free, flag_prev_is_free, size_field, flag,
  pack, set_prev_free, bin_index_for,
}
use allocazam.Runner.Mask.{Mask, set_bin_nonempty, set_bin_empty, first_nonempty_bin_from}

abbrev pub split_remainder_threshold : ℕ
split_remainder_threshold = 64

-- `chunk_node`, of which a list is a list of the model.
pub record ChunkNode : Type 0 where
  pub begin : ℕ
  pub bytes : ℕ
  pub mapping_base : ℕ
  pub mapping_bytes : ℕ

-- The runner at address `self`, with the memory that its runs lie in, and the numbers of its calls
-- of `operator new` for a chunk's node and of the platform for its memory.
pub record Runner : Type 0 where
  pub self : ℕ
  pub bins : ℕ → ℕ
  pub bin_nonempty_mask : Mask
  pub chunks : List ChunkNode
  pub page_size : ℕ
  pub next_growth : ℕ
  pub deferred_bytes : ℕ
  pub remote_head : ℕ
  pub memory : Memory
  pub calls : ℕ

-- The two words of a header, and what the first one says.
abbrev pub owner_word : ℕ → ℕ
owner_word h = h + 8

abbrev pub header_from_payload : ℕ → ℕ
header_from_payload p = p - run_header_size

abbrev pub payload_from_header : ℕ → ℕ
payload_from_header h = h + run_header_size

unfoldable pub run_size : Memory → ℕ → ℕ
run_size mem h = size_field (mem h)

unfoldable pub is_free : Memory → ℕ → Bool
is_free mem h = flag (mem h) flag_is_free

unfoldable pub prev_is_free : Memory → ℕ → Bool
prev_is_free mem h = flag (mem h) flag_prev_is_free

unfoldable pub set_header : Memory → ℕ → ℕ → (free prev_free : Bool) → Memory
set_header mem h bytes free prev_free = write mem h (pack bytes free prev_free)

-- `_set_prev_free`
unfoldable pub mark_prev_free : Memory → ℕ → Bool → Memory
mark_prev_free mem h prev_free = write mem h (set_prev_free (mem h) prev_free)

-- `_next_run`, 0 at the epilogue.
unfoldable pub next_run : Memory → ℕ → ℕ
next_run mem h = let next = h + run_size mem h in if run_size mem next == 0 then 0 else next

-- `_prev_run`, by the footer below the header.
unfoldable pub prev_run : Memory → ℕ → ℕ
prev_run mem h = let prev_size = mem (h - 8) in if prev_size == 0 then 0 else h - prev_size

unfoldable pub write_footer : Memory → ℕ → Memory
write_footer mem h = write mem (h + run_size mem h - 8) (run_size mem h)

-- The two links of a free run.
abbrev pub next_link : ℕ → ℕ
next_link h = payload_from_header h

abbrev pub prev_link : ℕ → ℕ
prev_link h = payload_from_header h + 8

abbrev set_bin : (ℕ → ℕ) → ℕ → ℕ → ℕ → ℕ
set_bin bins idx h i = if i == idx then h else bins i

unfoldable pub link_free : Runner → ℕ → Runner
link_free r h =
    let idx = bin_index_for (run_size r.memory h) in
    let first = r.bins idx in
    let linked = write (write r.memory (prev_link h) 0) (next_link h) first in
    record r {
      memory = if first == 0 then linked else write linked (prev_link first) h;
      bins = set_bin r.bins idx h;
      bin_nonempty_mask = set_bin_nonempty r.bin_nonempty_mask idx;
    }

unfoldable pub unlink_free : Runner → ℕ → Runner
unlink_free r h =
    let idx = bin_index_for (run_size r.memory h) in
    let prev = r.memory (prev_link h) in
    let next = r.memory (next_link h) in
    let bins = if prev == 0 then set_bin r.bins idx next else r.bins in
    let before = if prev == 0 then r.memory else write r.memory (next_link prev) next in
    let next' = before (next_link h) in
    record r {
      memory = if next' == 0 then before else write before (prev_link next') (before (prev_link h));
      bins = bins;
      bin_nonempty_mask =
          if bins idx == 0 then set_bin_empty r.bin_nonempty_mask idx else r.bin_nonempty_mask;
    }

-- The search along one bin, over at most as many runs as it is given.
unfoldable pub fit_in_bin : ℕ → Memory → (h needed : ℕ) → Option ℕ
fit_in_bin zero mem h needed = if h == 0 then some 0 else none
fit_in_bin (suc runs) mem h needed =
    let rest = fit_in_bin runs mem (mem (next_link h)) needed in
    if h == 0 then some 0 else if leb needed (run_size mem h) then some h else rest

-- The bytes of all chunks bound the number of runs.
abbrev pub chunk_bytes : List ChunkNode → ℕ
chunk_bytes [] = 0
chunk_bytes (c ∷ cs) = c.bytes + chunk_bytes cs

-- The outer loop of `_find_fit`, over at most as many bins as it is given.
unfoldable pub fit_from : ℕ → Runner → (start_bin idx needed : ℕ) → Option ℕ
fit_from zero r start_bin idx needed = if leb bin_count idx then some 0 else none
fit_from (suc bins) r start_bin idx needed =
    let rest =
      fit_from bins r start_bin (first_nonempty_bin_from r.bin_nonempty_mask (suc idx)) needed in
    let here = fit_in_bin (chunk_bytes r.chunks) r.memory (r.bins idx) needed in
    if leb bin_count idx
    then some 0
    else if not (idx == start_bin) || ltb idx linear_bin_count
    then some (r.bins idx)
    else elim here [ none ↦ none | some zero ↦ rest | some (suc h) ↦ some (suc h) ]

-- `_find_fit`, 0 for null; `none` only if a loop ran out of rounds.
unfoldable pub find_fit : Runner → ℕ → Option ℕ
find_fit r needed =
    let start_bin = bin_index_for needed in
    fit_from bin_count r start_bin (first_nonempty_bin_from r.bin_nonempty_mask start_bin) needed
