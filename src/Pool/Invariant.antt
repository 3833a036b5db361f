-- ===== src/Pool/Invariant.antt =====
-- The slots of a pool are free, parked or live, each exactly once.
use allocazam.Prelude.{
  ℕ, ◌+◌, ◌≤◌, ◌<◌, ◌≡◌, ◌≢◌, ap, ◌∙◌, List, [], ◌∷◌, false, arith, ◌==◌, length,
}
use native.Mathlib.Decide.{ℕ_discrete, dec_lt}
use allocazam.Word.{size_max}
use allocazam.Memory.{write}
use allocazam.Pool.{Pool, push_free_node, pop_free_node, counted, deallocate, remote_push}
use allocazam.Pool.Tally.{
  tally, drop_one, tally-drop_one, length-drop_one, Chain, Chain-write, Chain-cons,
}

pub record IsPool (p : Pool) (frees parked live slots : List ℕ) : Type 0 where
  pub free_chain : Chain p.memory p.free_head frees
  pub parked_chain : Chain p.memory p.remote_head parked
  pub tallied : (a : ℕ) → tally a frees + tally a parked + tally a live ≡ tally a slots
  pub once : (a : ℕ) → tally a slots ≤ 1
  pub no_null : tally 0 slots ≡ 0
  pub numbered : length frees + length parked + length live ≡ length slots
  pub sized : p.size ≡ length parked + length live
  pub total : p.capacity ≡ length slots
  pub bounded : length slots ≤ size_max

-- Only the memory, the two heads and the two counts matter.
pub same-IsPool :
    {p q : Pool} {frees parked live slots : List ℕ}
    → q.memory ≡ p.memory
    → q.free_head ≡ p.free_head
    → q.remote_head ≡ p.remote_head
    → q.size ≡ p.size
    → q.capacity ≡ p.capacity
    → IsPool p frees parked live slots
    → IsPool q frees parked live slots
same-IsPool memory free_head remote_head size capacity is = record {
  free_chain = rw (memory, free_head) is.free_chain;
  parked_chain = rw (memory, remote_head) is.parked_chain;
  tallied = is.tallied;
  once = is.once;
  no_null = is.no_null;
  numbered = is.numbered;
  sized = size ∙ is.sized;
  total = capacity ∙ is.total;
  bounded = is.bounded;
}

module _ {p : Pool} {parked live slots : List ℕ} where
  -- With no free node there is none to pop.
  pub pop-nil : IsPool p [] parked live slots → pop_free_node p ≡ (p, 0)
  unfolding pop_free_node
  pop-nil is = rw is.free_chain

  -- Otherwise the first one is popped.
  pub pop-cons :
      (n : ℕ) (fs : List ℕ)
      → IsPool p (n ∷ fs) parked live slots
      → pop_free_node p ≡ (record p { free_head = p.memory n }, n)
  unfolding pop_free_node
  pop-cons n fs is =
      let first = is.free_chain.0 in
      let real : (n == 0) ≡ false = ground (arith, is.free_chain.1) in ground arith

  -- Popped and counted, it is live.
  pub take-IsPool :
      (n : ℕ) (fs : List ℕ)
      → IsPool p (n ∷ fs) parked live slots
      → IsPool (counted (record p { free_head = p.memory n }, n)).0 fs parked (n ∷ live) slots
  take-IsPool n fs is = record {
    free_chain = is.free_chain.2;
    parked_chain = is.parked_chain;
    tallied = λ a. omega (arith, is.tallied a);
    once = is.once;
    no_null = is.no_null;
    numbered = omega (arith, is.numbered);
    sized = omega (arith, is.sized, is.numbered, is.bounded);
    total = is.total;
    bounded = is.bounded;
  }

module _ {p : Pool} {frees parked live slots : List ℕ} (n : ℕ)
    (is : IsPool p frees parked live slots) (held : 0 < tally n live) where
  -- A live address is a slot, and neither free nor parked.
  pub live_only : (n ≢ 0) × (tally n frees ≡ 0) × (tally n parked ≡ 0)
  live_only =
      let here = is.tallied n in
      let single = is.once n in
      (
        λ e. omega (arith, is.no_null, ap (λ a. tally a live) e, is.tallied 0),
        omega arith,
        omega arith,
      )

  pub deallocate-IsPool : IsPool (deallocate p n) (n ∷ frees) parked (drop_one n live) slots
  unfolding deallocate push_free_node
  deallocate-IsPool =
      let (ne, no_free, no_parked) = live_only in
      let real : (n == 0) ≡ false = ground arith in
      rw real (record {
        free_chain = Chain-cons p.memory n p.free_head frees ne no_free is.free_chain;
        parked_chain =
            Chain-write p.memory n p.free_head p.remote_head parked no_parked is.parked_chain;
        tallied = λ a. omega (arith, is.tallied a, tally-drop_one a n live held);
        once = is.once;
        no_null = is.no_null;
        numbered = omega (arith, is.numbered, length-drop_one n live held);
        sized = omega (arith, is.sized, is.numbered, is.bounded, length-drop_one n live held);
        total = is.total;
        bounded = is.bounded;
      })

  pub remote_push-IsPool : IsPool (remote_push p n) frees (n ∷ parked) (drop_one n live) slots
  unfolding remote_push
  remote_push-IsPool =
      let (ne, no_free, no_parked) = live_only in
      record {
        free_chain = Chain-write p.memory n p.remote_head p.free_head frees no_free is.free_chain;
        parked_chain = Chain-cons p.memory n p.remote_head parked ne no_parked is.parked_chain;
        tallied = λ a. omega (arith, is.tallied a, tally-drop_one a n live held);
        once = is.once;
        no_null = is.no_null;
        numbered = omega (arith, is.numbered, length-drop_one n live held);
        sized = omega (arith, is.sized, length-drop_one n live held);
        total = is.total;
        bounded = is.bounded;
      }

  -- A client may write anything into a live node, where nodes of `unit` bytes do not overlap.
  pub store-IsPool :
      (unit b v : ℕ)
      → ((x y : ℕ) → 0 < tally x slots → 0 < tally y slots → x < y → x + unit ≤ y)
      → n ≤ b
      → b < n + unit
      → IsPool (record p { memory = write p.memory b v }) frees parked live slots
  store-IsPool unit b v apart from below =
      let (ne, none_free, none_parked) = live_only in
      let here : 0 < tally n slots = omega (arith, is.tallied n) in
      let unlisted : (tally b frees ≡ 0) × (tally b parked ≡ 0) = elim (ℕ_discrete b n) [
        | yes e ↦ (ap (λ z. tally z frees) e ∙ none_free, ap (λ z. tally z parked) e ∙ none_parked)
        | no inner ↦ elim (dec_lt 0 (tally b slots)) [
          | yes listed ↦ absurd (omega (arith, apart n b here listed (omega arith)))
          | no unused ↦ (omega (arith, is.tallied b), omega (arith, is.tallied b))
        ]
      ] in
      record {
        free_chain = Chain-write p.memory b v p.free_head frees unlisted.0 is.free_chain;
        parked_chain = Chain-write p.memory b v p.remote_head parked unlisted.1 is.parked_chain;
        tallied = is.tallied;
        once = is.once;
        no_null = is.no_null;
        numbered = is.numbered;
        sized = is.sized;
        total = is.total;
        bounded = is.bounded;
      }
