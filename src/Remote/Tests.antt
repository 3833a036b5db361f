-- ===== src/Remote/Tests.antt =====
-- Two threads whose pushes overlap: the second one swings the head first, and the first one fails
-- once.
use allocazam.Prelude.{ℕ, ◌≤◌, ◌≡◌, refl, false, [], ◌∷◌, ◌⊎◌, arith}
use allocazam.Memory.{Memory}
use allocazam.Remote.{load_head, write_link, exchange_weak, take_all}
use allocazam.Remote.Pushes.{System, Reach, starts, goes, loads, links, swings, retries, node_of}
use allocazam.Remote.Parked.{reachable_parked}
use allocazam.Pool.Tally.{tally, Chain}

abbrev zeros : Memory
zeros a = 0

overlapped-Reach : (s : System) × Reach zeros s × (s.parked ≡ 16 ∷ 32 ∷ [])
unfolding load_head write_link exchange_weak
overlapped-Reach =
    let start : Reach zeros _ = starts in
    let first = goes start (loads 0 16 refl (omega arith, refl, λ j. omega arith)) in
    let second = goes first (loads 1 32 refl (omega arith, refl, λ j. ground arith)) in
    let linked_first = goes second (links 0 16 0 refl) in
    let linked_second = goes linked_first (links 1 32 0 refl) in
    let swung = goes linked_second (swings 1 32 0 refl refl) in
    let failed = goes swung (retries 0 16 0 false refl refl) in
    let relinked = goes failed (links 0 16 32 refl) in
    (_, goes relinked (swings 0 16 32 refl refl), refl)

reachable_parked_example :
    let s = overlapped-Reach.0 in
    Chain s.stack.memory (take_all s.stack).1 s.parked
    × ((a : ℕ) → tally a s.parked ≤ 1)
    × ((i : ℕ) → (node_of (s.threads i) ≡ 0) ⊎ (tally (node_of (s.threads i)) s.parked ≡ 0))
reachable_parked_example = reachable_parked overlapped-Reach.1
