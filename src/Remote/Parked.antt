-- ===== src/Remote/Parked.antt =====
-- The stack holds the parked nodes after any steps.
use native.Mathlib.Decide.{ℕ_discrete}
use allocazam.Prelude.{
  ℕ, ◌≤◌, ◌≡◌, ◌≢◌, refl, sym, ◌∙◌, ap, subst, false, not, ◌&&◌, Bool-cases, [], ◌∷◌, ◌⊎◌, inl, inr,
  arith, ◌==◌, ==_self, ==_iff,
}
use allocazam.Memory.{Memory}
use allocazam.Remote.{idle, loaded, linked, load_head, exchange_weak, take_all}
use allocazam.Pool.Tally.{tally, Chain}
use allocazam.Remote.Pushes.{
  System, move_to, node_of, IsUnused, Step, loads, links, swings, retries, takes, stores, Reach,
  starts, goes, IsParked,
}
use allocazam.Remote.Nodes.{moved_here, moved_other, keeps, linked-real, other_node}
use allocazam.Remote.Writes.{links-IsParked, stores-IsParked}

module _ (s : System) (is : IsParked s) where
  pub loads-IsParked :
      (i n : ℕ)
      → s.threads i ≡ idle
      → IsUnused s n
      → IsParked (record s { threads = move_to s.threads i (load_head s.stack n) })
  unfolding load_head
  loads-IsParked i n e (ne, out, unheld) =
      let phase = loaded n s.stack.head in
      let mine = moved_here s.threads i phase in
      let theirs = moved_other s.threads i phase in
      record {
        chain = is.chain;
        once = is.once;
        apart = λ j. elim (ℕ_discrete j i) [
          | yes here ↦ λ held. rw (here, ==_self i) out
          | no other ↦ rw (theirs j other) (is.apart j)
        ];
        distinct = λ j k. elim (ℕ_discrete j i) [
          | yes here ↦ elim (ℕ_discrete k i) [
            | yes here' ↦ λ held same. here ∙ sym here'
            | no other' ↦
                rw (here, ==_self i, theirs k other') (λ held same. absurd (unheld k (sym same)))
          ]
          | no other ↦ elim (ℕ_discrete k i) [
            | yes here' ↦
                rw (here', ==_self i, theirs j other) (λ held same. absurd (unheld j same))
            | no other' ↦ rw (theirs j other, theirs k other') (is.distinct j k)
          ]
        ];
        real = λ j. elim (ℕ_discrete j i) [
          | yes here ↦ inr (rw (here, ==_self i) ne)
          | no other ↦ rw (theirs j other) (is.real j)
        ];
        link = λ j m v at_j. elim (ℕ_discrete j i) [
          | yes here ↦
              let clash : phase ≡ linked m v =
                sym mine ∙ ap (move_to s.threads i phase) (sym here) ∙ at_j in
              absurd (cc)
          | no other ↦ is.link j m v (sym (theirs j other) ∙ at_j)
        ];
      }

  -- The thread leaves with its node parked.
  pub parks-IsParked :
      (i n seen : ℕ)
      → s.threads i ≡ linked n seen
      → s.stack.head ≡ seen
      → IsParked (record {
        stack = record s.stack { head = n };
        threads = move_to s.threads i idle;
        parked = n ∷ s.parked;
      })
  parks-IsParked i n seen e expected =
      let ne = linked-real s is i n seen e in
      let here : node_of (s.threads i) ≡ n = ap node_of e in
      let out : tally n s.parked ≡ 0 = rw here at (is.apart i (λ null. ne (sym here ∙ null))) in
      let mine = moved_here s.threads i idle in
      let theirs = moved_other s.threads i idle in
      record {
        chain = (refl, ne, rw (is.link i n seen e ∙ sym expected) is.chain);
        once = λ a. ground (arith, is.once a, out);
        apart = λ j held. elim (ℕ_discrete j i) [
          | yes same ↦ absurd (held (ap node_of (ap (move_to s.threads i idle) same ∙ mine)))
          | no other ↦
              let node = node_of (s.threads j) in
              let held' : node ≢ 0 = λ null. held (ap node_of (theirs j other) ∙ null) in
              let differs : (node == n) ≡ false =
                ground (arith, other_node s is i j n node here refl ne other) in
              let unparked : tally node (n ∷ s.parked) ≡ 0 =
                rw differs (omega (arith, is.apart j held')) in
              ap (λ x. tally (node_of x) (n ∷ s.parked)) (theirs j other) ∙ unparked
        ];
        distinct = λ j k held same. elim (ℕ_discrete j i) [
          | yes here' ↦ absurd (held (ap node_of (ap (move_to s.threads i idle) here' ∙ mine)))
          | no other ↦ elim (ℕ_discrete k i) [
            | yes here' ↦
                absurd (held (same ∙ ap node_of (ap (move_to s.threads i idle) here' ∙ mine)))
            | no other' ↦
                is.distinct j k (λ null. held (ap node_of (theirs j other) ∙ null))
                  (sym (ap node_of (theirs j other)) ∙ same ∙ ap node_of (theirs k other'))
          ]
        ];
        real = λ j. elim (ℕ_discrete j i) [
          | yes here' ↦ inl (ap (move_to s.threads i idle) here' ∙ mine)
          | no other ↦ rw (theirs j other) (is.real j)
        ];
        link = λ j m v at_j. elim (ℕ_discrete j i) [
          | yes here' ↦
              let clash : idle ≡ linked m v =
                sym mine ∙ ap (move_to s.threads i idle) (sym here') ∙ at_j in
              absurd (cc)
          | no other ↦ is.link j m v (sym (theirs j other) ∙ at_j)
        ];
      }

  takes-IsParked : IsParked (record s { stack = (take_all s.stack).0; parked = [] })
  unfolding take_all
  takes-IsParked = record {
    chain = refl;
    once = λ a. omega arith;
    apart = λ i held. refl;
    distinct = is.distinct;
    real = is.real;
    link = is.link;
  }

  -- A failed exchange changes nothing but what the thread has read.
  fails-IsParked :
      (i n seen v : ℕ)
      → s.threads i ≡ linked n seen
      → IsParked (record s { threads = move_to s.threads i (loaded n v) })
  fails-IsParked i n seen v e =
      keeps s is i (loaded n v) s.stack.memory (sym (ap node_of e)) (linked-real s is i n seen e)
        is.chain
        (λ j m w at_j. elim (ℕ_discrete j i) [
          | yes here ↦
              let clash : loaded n v ≡ linked m w =
                sym (moved_here s.threads i (loaded n v))
                ∙ ap (move_to s.threads i (loaded n v)) (sym here)
                ∙ at_j in
              absurd (cc)
          | no other ↦ is.link j m w (sym (moved_other s.threads i (loaded n v) j other) ∙ at_j)
        ])

-- Every step of any thread keeps the stack's words, heads and links as the list of parked nodes.
pub Step-IsParked : {s t : System} → IsParked s → Step s t → IsParked t
unfolding exchange_weak
Step-IsParked {s} is (loads i n e unused) = loads-IsParked s is i n e unused
Step-IsParked {s} is (links i n seen e) = links-IsParked s is i n seen e
Step-IsParked {s} is (swings i n seen {t} e swung) = elim (Bool-cases (s.stack.head == seen)) [
  | inr fails ↦ absurd (ground arith)
  | inl holds ↦
      let result : (record s.stack { head = n }, idle) ≡ (t, idle) = rw holds at swung in
      subst
        (λ x.
          IsParked
            (record { stack = x; threads = move_to s.threads i idle; parked = n ∷ s.parked }))
        (ap (λ x. x.0) result) (parks-IsParked s is i n seen e ((==_iff s.stack.head seen).0 holds))
]
Step-IsParked {s} is (retries i n seen spurious {t} {m} {v} e failed) =
    elim (Bool-cases ((s.stack.head == seen) && not spurious)) [
      | inl holds ↦
          let result : (record s.stack { head = n }, idle) ≡ (t, loaded m v) = rw holds at failed in
          let clash : idle ≡ loaded m v = ap (λ x. x.1) result in absurd (cc)
      | inr fails ↦
          let result : (s.stack, loaded n s.stack.head) ≡ (t, loaded m v) = rw fails at failed in
          subst (λ x. IsParked (record s { stack = x.0; threads = move_to s.threads i x.1 })) result
            (fails-IsParked s is i n seen s.stack.head e)
    ]
Step-IsParked {s} is takes = takes-IsParked s is
Step-IsParked {s} is (stores a v unused) = stores-IsParked s is a v unused

reachable-IsParked : {mem : Memory} {s : System} → Reach mem s → IsParked s
reachable-IsParked starts = record {
  chain = refl;
  once = λ a. omega arith;
  apart = λ i held. refl;
  distinct = λ i j held same. absurd (held refl);
  real = λ i. inl refl;
  link = λ i n seen e. absurd (cc);
}
reachable-IsParked (goes before step) = Step-IsParked (reachable-IsParked before) step

-- However the steps of any number of pushing threads, the owner and the clients interleave, and
-- however often an exchange fails, the stack leads through exactly the nodes whose pushes have
-- succeeded since the owner last took it, the latest first; each is there once, and none of them is
-- a node that a thread is still pushing.
pub reachable_parked :
    {mem : Memory} {s : System}
    → Reach mem s
    → Chain s.stack.memory (take_all s.stack).1 s.parked
      × ((a : ℕ) → tally a s.parked ≤ 1)
      × ((i : ℕ) → (node_of (s.threads i) ≡ 0) ⊎ (tally (node_of (s.threads i)) s.parked ≡ 0))
unfolding take_all
reachable_parked reach =
    let is = reachable-IsParked reach in
    (
      is.chain,
      is.once,
      λ i. elim (is.real i) [ inl out ↦ inl (ap node_of out) | inr held ↦ inr (is.apart i held) ],
    )
