-- ===== src/Remote/Nodes.antt =====
-- The nodes that the threads push.
use native.Mathlib.Decide.{ℕ_discrete}
use allocazam.Prelude.{ℕ, ◌≡◌, ◌≢◌, refl, sym, ◌∙◌, ap, false, inl, inr, arith, ◌==◌, ==_self}
use allocazam.Memory.{Memory}
use allocazam.Remote.{Phase, idle, loaded, linked}
use allocazam.Pool.Tally.{Chain}
use allocazam.Remote.Pushes.{System, move_to, node_of, IsParked}

pub moved_here : (threads : ℕ → Phase) (i : ℕ) (phase : Phase) → move_to threads i phase i ≡ phase
moved_here threads i phase = rw (==_self i) refl

pub moved_other :
    (threads : ℕ → Phase) (i : ℕ) (phase : Phase) (j : ℕ)
    → j ≢ i
    → move_to threads i phase j ≡ threads j
moved_other threads i phase j ne = let test : (j == i) ≡ false = ground arith in rw test refl

-- A thread that keeps its node keeps what holds of the nodes.
nodes_kept :
    (threads : ℕ → Phase) (i : ℕ) (phase : Phase)
    → node_of phase ≡ node_of (threads i)
    → (j : ℕ) → node_of (move_to threads i phase j) ≡ node_of (threads j)
nodes_kept threads i phase same j = elim (ℕ_discrete j i) [
  | yes here ↦ rw (here, ==_self i) same
  | no other ↦ ap node_of (moved_other threads i phase j other)
]

module _ (s : System) (is : IsParked s) where
  node-of : (i n seen : ℕ) → s.threads i ≡ loaded n seen → node_of (s.threads i) ≡ n
  node-of i n seen e = ap node_of e

  -- The same nodes are pushed, and no parked word is written.
  pub keeps :
      (i : ℕ) (phase : Phase) (mem : Memory)
      → node_of phase ≡ node_of (s.threads i)
      → node_of phase ≢ 0
      → Chain mem s.stack.head s.parked
      → ((j n seen : ℕ) → move_to s.threads i phase j ≡ linked n seen → mem n ≡ seen)
      → IsParked (record s {
        stack = record { head = s.stack.head; memory = mem };
        threads = move_to s.threads i phase;
      })
  keeps i phase mem same ne chain link =
      let kept = nodes_kept s.threads i phase same in
      record {
        chain = chain;
        once = is.once;
        apart = λ j. rw (kept j) (is.apart j);
        distinct = λ j k. rw (kept j, kept k) (is.distinct j k);
        real = λ j. elim (ℕ_discrete j i) [
          | yes here ↦ inr (rw (here, ==_self i) ne)
          | no other ↦ rw (moved_other s.threads i phase j other) (is.real j)
        ];
        link = link;
      }

  pub loaded-real : (i n seen : ℕ) → s.threads i ≡ loaded n seen → n ≢ 0
  loaded-real i n seen e = elim (is.real i) [
    | inl none_held ↦ let clash : loaded n seen ≡ idle = sym e ∙ none_held in absurd (cc)
    | inr held ↦ λ null. held (ap node_of e ∙ null)
  ]

  pub linked-real : (i n seen : ℕ) → s.threads i ≡ linked n seen → n ≢ 0
  linked-real i n seen e = elim (is.real i) [
    | inl none_held ↦ let clash : linked n seen ≡ idle = sym e ∙ none_held in absurd (cc)
    | inr held ↦ λ null. held (ap node_of e ∙ null)
  ]

  -- Two threads' nodes differ.
  pub other_node :
      (i j n m : ℕ) → node_of (s.threads i) ≡ n → node_of (s.threads j) ≡ m → n ≢ 0 → j ≢ i → m ≢ n
  other_node i j n m e e' ne other same =
      other (sym (is.distinct i j (λ null. ne (sym e ∙ null)) (e ∙ sym same ∙ sym e')))
