-- ===== src/Suballocated/Cache.antt =====
-- lib/allocazam.hpp: the lists of a thread's `tls_run_cache`, and their classes by size. A cached run
-- keeps its link in its first word and its owner in the second.
pub mod Sizes
pub mod Lists
use allocazam.Prelude.{
  ℕ, zero, suc, ◌+◌, ◌-◌, ◌*◌, ◌/◌, Bool, Option, none, some, ◌==◌, if◌then◌else◌,
}
use allocazam.Word.{wrap, size_max}
use allocazam.Word.Pow2.{and_not}
use allocazam.Memory.{Memory, write}
use allocazam.Suballocated.{Class}

-- `alignof(std::max_align_t)`
abbrev pub tls_run_quantum : ℕ
tls_run_quantum = 16

abbrev pub tls_run_cutoff : ℕ
tls_run_cutoff = 4096

abbrev pub tls_run_class_count : ℕ
tls_run_class_count = tls_run_cutoff / tls_run_quantum

abbrev pub tls_refill_batch : ℕ
tls_refill_batch = 4

abbrev pub tls_high_watermark : ℕ
tls_high_watermark = 32

abbrev pub tls_drain_low_watermark : ℕ
tls_drain_low_watermark = 16

unfoldable pub tls_align_up : ℕ → ℕ
tls_align_up bytes = let mask = tls_run_quantum - 1 in and_not (wrap (bytes + mask)) mask

unfoldable pub tls_class_index_for : ℕ → ℕ
tls_class_index_for bytes = wrap (tls_align_up bytes / tls_run_quantum + size_max)

unfoldable pub tls_class_bytes : ℕ → ℕ
tls_class_bytes idx = wrap (wrap (idx + 1) * tls_run_quantum)

-- `tls_run_node::owner`
abbrev pub cached_owner : Memory → ℕ → ℕ
cached_owner mem node = mem (node + 8)

-- `_tls_push`, on the class of the index.
unfoldable pub tls_push : Memory → Class → (p owner : ℕ) → Memory × Class
tls_push mem cls p owner =
    (write (write mem p cls.head) (p + 8) owner, record { head = p; count = wrap (cls.count + 1) })

-- The loop of `_tls_pop_for_owner`, over at most as many nodes as it is given: the node before the
-- first one of that owner, and the node, 0 for null.
unfoldable pub find_owned : ℕ → Memory → (prev node owner : ℕ) → Option (ℕ × ℕ)
find_owned zero mem prev node owner = if node == 0 then some (prev, 0) else none
find_owned (suc nodes) mem prev node owner =
    let rest = find_owned nodes mem node (mem node) owner in
    if node == 0
    then some (prev, 0)
    else if cached_owner mem node == owner
    then some (prev, node)
    else rest

-- The node leaves its list, behind `prev`.
unfoldable pub unlink_cached : Memory → Class → (prev node : ℕ) → Memory × Class
unlink_cached mem cls prev node =
    if prev == 0
    then (mem, record { head = mem node; count = wrap (cls.count + size_max) })
    else (write mem prev (mem node), record cls { count = wrap (cls.count + size_max) })

-- A class has as many nodes as it counts.
unfoldable pub tls_pop_for_owner : Memory → Class → ℕ → Option (Memory × Class × ℕ)
tls_pop_for_owner mem cls owner = elim (find_owned cls.count mem 0 cls.head owner) [
  | none ↦ none
  | some (prev, node) ↦
      if node == 0
      then some (mem, cls, 0)
      else (let (mem', cls') = unlink_cached mem cls prev node in some (mem', cls', node))
]

unfoldable pub tls_pop_any : Memory → Class → Class × ℕ
tls_pop_any mem cls =
    if cls.head == 0
    then (cls, 0)
    else (record { head = mem cls.head; count = wrap (cls.count + size_max) }, cls.head)
