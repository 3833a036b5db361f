-- ===== src/Remote.antt =====
-- The stack on which other threads park what they free: `remote_push` of lib/allocazam.hpp and of
-- lib/runner.hpp and the exchange at the start of `_drain_remote`, in the steps that the threads
-- make of the shared head.
pub mod Pushes
pub mod Nodes
pub mod Writes
pub mod Parked
mod Tests
use allocazam.Prelude.{ℕ, Bool, true, false, not, ◌&&◌, ◌==◌, if◌then◌else◌}
use allocazam.Memory.{Memory, write}

-- The shared head, and the memory with the nodes' links.
pub record Stack : Type 0 where
  pub head : ℕ
  pub memory : Memory

-- Where a thread stands in `remote_push`: outside, or with its node and the head that it has read,
-- before or after it has written that head into the node.
pub data Phase : Type 0 where
  idle : Phase
  loaded linked : (node seen : ℕ) → Phase

-- The load before the loop.
unfoldable pub load_head : Stack → ℕ → Phase
load_head t n = loaded n t.head

-- The link that the loop's body writes into the node.
unfoldable pub write_link : Stack → (node seen : ℕ) → Stack
write_link t node seen = record t { memory = write t.memory node seen }

-- `compare_exchange_weak`, which may fail spuriously, and reads the head where it fails.
unfoldable pub exchange_weak : (spurious : Bool) → Stack → (node seen : ℕ) → Stack × Phase
exchange_weak spurious t node seen =
    if (t.head == seen) && not spurious
    then (record t { head = node }, idle)
    else (t, loaded node t.head)

-- The owner's exchange: the nodes from the pointer on are now its own.
unfoldable pub take_all : Stack → Stack × ℕ
take_all t = (record t { head = 0 }, t.head)
