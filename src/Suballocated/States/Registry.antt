-- ===== src/Suballocated/States/Registry.antt =====
-- The registry of the threads' states, over calls of `_thread_state` by any threads in any order.
use allocazam.Prelude.{
  ℕ, suc, ◌≤◌, ◌<◌, ◌≡◌, ◌≢◌, refl, sym, ap, ◌∙◌, List, [], ◌∷◌, ◌⊎◌, inl, inr, true, false, arith,
  ◌==◌, ==_self,
}
use native.Mathlib.Decide.{ℕ_discrete}
use allocazam.Memory.{Memory}
use allocazam.Exception.{bad_alloc, ok, throw}
use allocazam.Word.Pow2.{has_single_bit}
use allocazam.Pool.{construct_lazy}
use allocazam.Pool.Tally.{tally, Chain, Chain-cons}
use allocazam.Suballocated.{Setup, Process}
use allocazam.Suballocated.States.{
  State, construct_lazy_state, register, make_thread_state, thread_state,
}

Chain-no_null : (mem : Memory) (head : ℕ) (xs : List ℕ) → Chain mem head xs → tally 0 xs ≡ 0
Chain-no_null mem head [] c = refl
Chain-no_null mem head (x ∷ xs) c = ground (arith, Chain-no_null mem (mem x) xs c.2)

-- What `operator new` promises: no address twice.
abbrev pub IsStateNew : Setup → Type 0
IsStateNew s = (i j : ℕ) → i < j → s.state_news j ≢ 0 → s.state_news i ≢ s.state_news j

-- A process on which no thread has called yet.
pub record IsFresh (w : Process) : Type 0 where
  pub empty : w.registry ≡ 0
  pub untouched : (t : ℕ) → (w.threads t).state ≡ 0
  pub unmade : w.states_made ≡ 0

-- Calls of `_thread_state` by some threads, one after the other; between them everything but the
-- registry and the threads' states may change.
pub data Touched (s : Setup) : Process → Type 0 where
  starts : {w : Process} → IsFresh w → Touched s w
  touches : {w : Process} (t : ℕ) → Touched s w → Touched s (thread_state s t w).0
  other :
      {w w' : Process}
      → Touched s w
      → w'.registry ≡ w.registry
      → w'.registry_next ≡ w.registry_next
      → w'.states_made ≡ w.states_made
      → ((t : ℕ) → (w'.threads t).state ≡ (w.threads t).state)
      → Touched s w'

-- The registry lists these states, each made by one of the calls of `new`, and each state that was
-- made; every one is some thread's, a thread's state is one of them, and no other thread's.
pub record IsRegistered (s : Setup) (w : Process) (states : List ℕ) : Type 0 where
  pub chain : Chain w.registry_next w.registry states
  pub once : (a : ℕ) → tally a states ≤ 1
  pub all : (k : ℕ) → k < w.states_made → s.state_news k ≢ 0 → 0 < tally (s.state_news k) states
  pub held : (a : ℕ) → 0 < tally a states → (t : ℕ) × ((w.threads t).state ≡ a)
  pub made : (a : ℕ) → 0 < tally a states → (k : ℕ) × (k < w.states_made) × (s.state_news k ≡ a)
  pub listed : (t : ℕ) → (w.threads t).state ≢ 0 → 0 < tally (w.threads t).state states
  pub own : (t u : ℕ) → t ≢ u → (w.threads t).state ≢ 0 → (w.threads t).state ≢ (w.threads u).state

fresh-IsRegistered : {s : Setup} {w : Process} → IsFresh w → IsRegistered s w []
fresh-IsRegistered is = record {
  chain = is.empty;
  once = λ a. omega arith;
  all = λ k lt. absurd (let none_made = is.unmade in omega arith);
  held = λ a h. absurd (omega arith);
  made = λ a h. absurd (omega arith);
  listed = λ t ne. absurd (ne (is.untouched t));
  own = λ t u d ne. absurd (ne (is.untouched t));
}

-- The lazy constructors do not throw.
lazy_made :
    (s : Setup) (self : ℕ) (mem : Memory)
    → (state : State) × (construct_lazy_state s self mem ≡ ok state)
unfolding construct_lazy_state construct_lazy has_single_bit
lazy_made s self mem = (_, refl)

thread_state-held :
    (s : Setup) (t : ℕ) (w : Process) (slot : ℕ)
    → (w.threads t).state ≡ slot
    → slot ≢ 0
    → thread_state s t w ≡ (w, ok slot)
unfolding thread_state
thread_state-held s t w slot held real =
    let test : ((w.threads t).state == 0) ≡ false = ground arith in
    rw (thread_state, test, held) refl

module _ (s : Setup) (t : ℕ) (w : Process) where
  fresh : ℕ
  fresh = s.state_news w.states_made

  -- A new state is listed first.
  register-IsRegistered :
      (states : List ℕ) (state : State)
      → IsStateNew s
      → fresh ≢ 0
      → (w.threads t).state ≡ 0
      → IsRegistered s w states
      → IsRegistered s
          (register s t fresh state (record w { states_made = suc w.states_made }))
          (fresh ∷ states)
  unfolding register fresh
  register-IsRegistered states state new real none_yet is =
      let unlisted : tally fresh states ≡ 0 = elim (ℕ_discrete (tally fresh states) 0) [
        | yes e ↦ e
        | no ne ↦
            let (k, lt, e) = is.made fresh (omega arith) in absurd (new k w.states_made lt real e)
      ] in
      let unheld : (u : ℕ) → (w.threads u).state ≢ fresh = λ u e.
        let held : (w.threads u).state ≢ 0 = rw e real in
        let here = is.listed u held in
        let same : tally (w.threads u).state states ≡ tally fresh states =
          ap (λ a. tally a states) e in
        omega arith in
      record {
        chain = Chain-cons w.registry_next fresh w.registry states real unlisted is.chain;
        once = λ a. ground (arith, is.once a);
        all = λ k lt given. elim (ℕ_discrete k w.states_made) [
          | yes e ↦ (let same : s.state_news k ≡ fresh = ap s.state_news e in ground arith)
          | no earlier ↦ (let old = is.all k (omega arith) given in ground arith)
        ];
        held = λ a h. elim (ℕ_discrete a fresh) [
          | yes e ↦ (t, rw (==_self t) (sym e))
          | no ne ↦
              let (u, has) = is.held a (ground arith) in
              let not_null : a ≢ 0 = λ null. omega (
                arith,
                Chain-no_null w.registry_next w.registry states is.chain,
                ap (λ z. tally z states) null,
                (let listed : 0 < tally a states = ground arith in listed),
              ) in
              let other : (t == u) ≡ false = ground arith in (u, rw other has)
        ];
        made = λ a h. elim (ℕ_discrete a fresh) [
          | yes e ↦ (w.states_made, omega arith, sym e)
          | no ne ↦ let (k, lt, e) = is.made a (ground arith) in (k, omega arith, e)
        ];
        listed = λ u ne. elim (ℕ_discrete t u) [
          | yes e ↦ ground (arith)
          | no d ↦ ground (arith, is.listed u)
        ];
        own = λ u v d ne. elim (ℕ_discrete t u) [
          | yes e ↦ ground (arith, unheld v)
          | no d' ↦ ground (arith, unheld u, is.own u v)
        ];
      }

  -- A call finds the thread's state; or makes one, and lists it; or lets `bad_alloc` out.
  thread_state-cases :
      ((slot : ℕ) × (slot ≢ 0) × ((w.threads t).state ≡ slot) × (thread_state s t w ≡ (w, ok slot)))
      ⊎ ((state : State) × (fresh ≢ 0)
          × ((w.threads t).state ≡ 0)
          × (thread_state s t w ≡ (
            register s t fresh state (record w { states_made = suc w.states_made }),
            ok fresh,
          )))
      ⊎ ((fresh ≡ 0)
          × ((w.threads t).state ≡ 0)
          × (thread_state s t w ≡ (record w { states_made = suc w.states_made }, throw bad_alloc)))
  unfolding thread_state make_thread_state fresh
  thread_state-cases = elim (ℕ_discrete (w.threads t).state 0) [
    | no has ↦
        inl ((w.threads t).state, has, refl, thread_state-held s t w (w.threads t).state refl has)
    | yes none_yet ↦
        let test : ((w.threads t).state == 0) ≡ true = ground arith in
        elim (ℕ_discrete (s.state_news w.states_made) 0) [
          | yes fails ↦
              let test' : (s.state_news w.states_made == 0) ≡ true = ground arith in
              inr (inr (fails, none_yet, rw (thread_state, test, make_thread_state, test') refl))
          | no real ↦
              let test' : (s.state_news w.states_made == 0) ≡ false = ground arith in
              let (state, e) = lazy_made s (s.state_news w.states_made) w.memory in
              inr (
                inl (
                  state,
                  real,
                  none_yet,
                  rw (thread_state, test, make_thread_state, test', e) refl,
                ))
        ]
  ]

  thread_state-IsRegistered :
      (states : List ℕ)
      → IsStateNew s
      → IsRegistered s w states
      → (states' : List ℕ) × IsRegistered s (thread_state s t w).0 states'
  unfolding fresh
  thread_state-IsRegistered states new is = elim thread_state-cases [
    | inl (slot, has, held, e) ↦ (states, rw e is)
    | inr (inl (state, real, none_yet, e)) ↦
        (fresh ∷ states, rw e (register-IsRegistered states state new real none_yet is))
    | inr (inr (fails, none_yet, e)) ↦ (
      states,
      rw e (record {
        chain = is.chain;
        once = is.once;
        all = λ k lt given. elim (ℕ_discrete k w.states_made) [
          | yes e ↦ absurd (given (ap s.state_news e ∙ fails))
          | no earlier ↦ is.all k (omega arith) given
        ];
        held = is.held;
        made = λ a h. let (k, lt, e) = is.made a h in (k, omega arith, e);
        listed = is.listed;
        own = is.own;
      }),
    )
  ]

  -- A call of `_thread_state` gives a state that is not null, and that is the thread's from then on,
  -- which the next call gives again without a change; or `new` throws, and the thread has none.
  pub thread_state-stable :
      ((w' : Process) × (slot : ℕ) × (thread_state s t w ≡ (w', ok slot))
        × (slot ≢ 0)
        × ((w'.threads t).state ≡ slot)
        × (thread_state s t w' ≡ (w', ok slot)))
      ⊎ ((w' : Process) × (thread_state s t w ≡ (w', throw bad_alloc)) × ((w'.threads t).state ≡ 0))
  unfolding register
  thread_state-stable = elim thread_state-cases [
    | inl (slot, has, held, e) ↦ inl (w, slot, e, has, held, e)
    | inr (inl (state, real, none_yet, e)) ↦
        let w' = register s t fresh state (record w { states_made = suc w.states_made }) in
        let kept : (w'.threads t).state ≡ fresh = rw (register, ==_self t) refl in
        inl (w', fresh, e, real, kept, thread_state-held s t w' fresh kept real)
    | inr (inr (fails, none_yet, e)) ↦ inr (_, e, none_yet)
  ]

-- Where `operator new` gives no address twice, and whatever threads touch their states, in any order,
-- the registry lists exactly the states that were made, each once; every listed state is some
-- thread's, each thread has one of them or none, and no two threads have the same.
pub histories-IsRegistered :
    (s : Setup) {w : Process}
    → IsStateNew s
    → Touched s w
    → (states : List ℕ) × IsRegistered s w states
histories-IsRegistered s new (starts is) = ([], fresh-IsRegistered is)
histories-IsRegistered s new (touches {w = w} t before) =
    let (states, is) = histories-IsRegistered s new before in
    thread_state-IsRegistered s t w states new is
histories-IsRegistered s new (other before head next made same) =
    let (states, is) = histories-IsRegistered s new before in
    (
      states,
      record {
        chain = rw (head, next) is.chain;
        once = is.once;
        all = λ k lt. is.all k (omega (arith, made, lt));
        held = λ a h. let (t, has) = is.held a h in (t, same t ∙ has);
        made = rw made is.made;
        listed = λ t. rw (same t) (is.listed t);
        own = λ t u. rw (same t, same u) (is.own t u);
      },
    )
