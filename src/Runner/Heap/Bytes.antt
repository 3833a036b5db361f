-- ===== src/Runner/Heap/Bytes.antt =====
-- `allocate_bytes` as a whole.
use allocazam.Prelude.{ℕ, ◌≡◌, List, ◌⊎◌, Option}
use allocazam.Exception.{Outcome}
use allocazam.Runner.Runs.{Runner}
use allocazam.Runner.Chunks.{Setup}
use allocazam.Runner.Heap.{Heap}
use allocazam.Runner.Heap.Served.{IsServed}
use allocazam.Runner.Heap.Result.{NoneFits, IsAnswer}

-- Either the parked runs stay parked, or, because no free run was large enough, all of them are
-- freed first; then the answer.
abbrev pub IsReply :
    (s : Setup) (r : Runner) (H : Heap) (parked : List ℕ) (needed : ℕ)
    → Option (Runner × Outcome ℕ)
    → Type 0
IsReply s r H parked needed result =
    IsAnswer s r H needed result
    ⊎ (NoneFits H needed
        × ((r' : Runner) × (freed : IsServed s (record r { remote_head = 0 }) r' H parked 0)
            × (r'.chunks ≡ r.chunks)
            × (r'.deferred_bytes ≡ r.deferred_bytes)
            × IsAnswer s r' freed.heap needed result))
