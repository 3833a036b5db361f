-- ===== src/Remote/Pushes.antt =====
-- Any number of threads push while the owner takes, in any order of their steps.
use allocazam.Prelude.{ℕ, ◌≤◌, ◌≡◌, ◌≢◌, Bool, false, List, [], ◌∷◌, ◌⊎◌, ◌==◌, if◌then◌else◌}
use allocazam.Memory.{Memory}
use allocazam.Remote.{
  Stack, Phase, idle, loaded, linked, load_head, write_link, exchange_weak, take_all,
}
use allocazam.Pool.Tally.{tally, Chain}

-- The threads' phases and the stack, with the list that it stands for.
pub record System : Type 0 where
  pub stack : Stack
  pub threads : ℕ → Phase
  pub parked : List ℕ

abbrev pub move_to : (ℕ → Phase) → ℕ → Phase → ℕ → Phase
move_to threads i phase j = if j == i then phase else threads j

-- The node that a thread pushes, 0 outside `remote_push`.
abbrev pub node_of : Phase → ℕ
node_of idle = 0
node_of (loaded node seen) = node
node_of (linked node seen) = node

-- No thread pushes the node, and it is not parked.
abbrev pub IsUnused : System → ℕ → Type 0
IsUnused s n = (n ≢ 0) × (tally n s.parked ≡ 0) × ((j : ℕ) → node_of (s.threads j) ≢ n)

-- One step of a thread in `remote_push`, of the owner, or of anyone's writes into memory that is
-- neither parked nor being pushed. A push counts from its successful exchange on.
pub data Step (s : System) : System → Type 0 where
  loads :
      (i n : ℕ)
      → s.threads i ≡ idle
      → IsUnused s n
      → Step s (record s { threads = move_to s.threads i (load_head s.stack n) })
  links :
      (i n seen : ℕ)
      → s.threads i ≡ loaded n seen
      → Step s (record s {
        stack = write_link s.stack n seen;
        threads = move_to s.threads i (linked n seen);
      })
  swings :
      (i n seen : ℕ) {t : Stack}
      → s.threads i ≡ linked n seen
      → exchange_weak false s.stack n seen ≡ (t, idle)
      → Step s (record { stack = t; threads = move_to s.threads i idle; parked = n ∷ s.parked })
  retries :
      (i n seen : ℕ) (spurious : Bool) {t : Stack} {m v : ℕ}
      → s.threads i ≡ linked n seen
      → exchange_weak spurious s.stack n seen ≡ (t, loaded m v)
      → Step s (record s { stack = t; threads = move_to s.threads i (loaded m v) })
  takes : Step s (record s { stack = (take_all s.stack).0; parked = [] })
  stores : (a v : ℕ) → IsUnused s a → Step s (record s { stack = write_link s.stack a v })

pub data Reach (mem : Memory) : System → Type 0 where
  starts :
      Reach mem
        (record { stack = record { head = 0; memory = mem }; threads = λ i. idle; parked = [] })
  goes : {s t : System} → Reach mem s → Step s t → Reach mem t

pub record IsParked (s : System) : Type 0 where
  pub chain : Chain s.stack.memory s.stack.head s.parked
  pub once : (a : ℕ) → tally a s.parked ≤ 1
  pub apart : (i : ℕ) → node_of (s.threads i) ≢ 0 → tally (node_of (s.threads i)) s.parked ≡ 0
  pub distinct :
      (i j : ℕ) → node_of (s.threads i) ≢ 0 → node_of (s.threads i) ≡ node_of (s.threads j) → i ≡ j
  pub real : (i : ℕ) → (s.threads i ≡ idle) ⊎ (node_of (s.threads i) ≢ 0)
  pub link : (i n seen : ℕ) → s.threads i ≡ linked n seen → s.stack.memory n ≡ seen
