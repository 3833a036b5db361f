-- ===== src/Pool/Grow.antt =====
-- A chunk that the pool takes in adds its slots to the free ones.
use native.Mathlib.Nat.{zero-add, suc-add}
use allocazam.Prelude.{
  ℕ, zero, suc, ◌+◌, ◌-◌, ◌≤◌, ◌<◌, ◌≡◌, ◌≢◌, refl, ap, subst, List, [], ◌∷◌, ◌++◌, arith,
  if◌then◌else◌, length,
}
use allocazam.Word.{size_max, wrap}
use allocazam.Memory.{Memory}
use allocazam.Chunk.{Chunk, at, stamp_owner}
use allocazam.Pool.{Setup, Pool, push_free_node, push_slots, adopt}
use allocazam.Pool.Tally.{tally, tally-append, Chain-write, Chain-cons, Chain-frame}
use allocazam.Pool.Invariant.{IsPool, same-IsPool}

-- The first `n` slots of a chunk, the last one in front, as they are pushed.
abbrev pub slots_of : Setup → Chunk → ℕ → List ℕ
slots_of s c zero = []
slots_of s c (suc n) = at s.headers s.layout c n ∷ slots_of s c n

pub length-slots_of : (s : Setup) (c : Chunk) (n : ℕ) → length (slots_of s c n) ≡ n
length-slots_of s c zero = refl
length-slots_of s c (suc n) = ap suc (length-slots_of s c n)

abbrev pub sized : Pool → ℕ → Pool
sized p n = record p { capacity = n }

pub push_slots-capacity :
    (s : Setup) (c : Chunk) (n : ℕ) (p : Pool) → (push_slots s c n p).capacity ≡ p.capacity
unfolding push_slots push_free_node
push_slots-capacity s c zero p = refl
push_slots-capacity s c (suc n) p = push_slots-capacity s c n p

pub push_slots_chunks :
    (s : Setup) (c : Chunk) (n : ℕ) (p : Pool) → (push_slots s c n p).chunks ≡ p.chunks
unfolding push_slots push_free_node
push_slots_chunks s c zero p = refl
push_slots_chunks s c (suc n) p = push_slots_chunks s c n p

pub push_slots-rest :
    (s : Setup) (c : Chunk) (n : ℕ) (p : Pool)
    → ((push_slots s c n p).page_size ≡ p.page_size)
      × ((push_slots s c n p).next_growth ≡ p.next_growth)
      × ((push_slots s c n p).calls ≡ p.calls)
unfolding push_slots push_free_node
push_slots-rest s c zero p = (refl, refl, refl)
push_slots-rest s c (suc n) p = push_slots-rest s c n p

-- One address more.
push_new :
    (p : Pool) (n k : ℕ) {frees parked live slots : List ℕ}
    → n ≢ 0
    → tally n slots ≡ 0
    → suc k ≤ size_max
    → IsPool (sized p k) frees parked live slots
    → IsPool (sized (push_free_node p n) (suc k)) (n ∷ frees) parked live (n ∷ slots)
unfolding push_free_node
push_new p n k {frees} {parked} {live} {slots} ne new small is =
    let here = is.tallied n in
    let no_free : tally n frees ≡ 0 = omega arith in
    let no_parked : tally n parked ≡ 0 = omega arith in
    record {
      free_chain = Chain-cons p.memory n p.free_head frees ne no_free is.free_chain;
      parked_chain =
          Chain-write p.memory n p.free_head p.remote_head parked no_parked is.parked_chain;
      tallied = λ a. omega (arith, is.tallied a);
      once = λ a. ground (arith, is.once a, new);
      no_null = ground (arith, is.no_null, ne);
      numbered = omega (arith, is.numbered);
      sized = is.sized;
      total = omega (arith, is.total);
      bounded = omega (arith, is.total);
    }

-- The chunk's slots are real addresses, distinct, and none of the pool's.
pub record IsFresh (s : Setup) (c : Chunk) (slots : List ℕ) : Type 0 where
  pub apart : (a : ℕ) → tally a (slots_of s c c.count) + tally a slots ≤ 1
  pub not_null : tally 0 (slots_of s c c.count) ≡ 0
  pub fits : length slots + c.count ≤ size_max

slots_of-tally_mono :
    (s : Setup) (c : Chunk) (a n k : ℕ) → tally a (slots_of s c n) ≤ tally a (slots_of s c (k + n))
slots_of-tally_mono s c a n zero = rw zero-add (omega arith)
slots_of-tally_mono s c a n (suc k) = rw suc-add (omega (arith, slots_of-tally_mono s c a n k))

slots_of-tally_le :
    (s : Setup) (c : Chunk) (a : ℕ) {m n : ℕ}
    → m ≤ n
    → tally a (slots_of s c m) ≤ tally a (slots_of s c n)
slots_of-tally_le s c a {m} {n} le =
    let e : n - m + m ≡ n = omega arith in
    subst (λ k. tally a (slots_of s c m) ≤ tally a (slots_of s c k)) e
      (slots_of-tally_mono s c a m (n - m))

pub push_slots-IsPool :
    (s : Setup) (c : Chunk) (n : ℕ) (p : Pool) {frees parked live slots : List ℕ}
    → IsFresh s c slots
    → n ≤ c.count
    → IsPool p frees parked live slots
    → IsPool
        (sized (push_slots s c n p) (n + p.capacity))
        (slots_of s c n ++ frees)
        parked
        live
        (slots_of s c n ++ slots)
unfolding push_slots
push_slots-IsPool s c zero p new le is = rw zero-add is
push_slots-IsPool s c (suc n) p {slots} new le is =
    let slot = at s.headers s.layout c n in
    let below = slots_of-tally_le s c slot {m = suc n} {n = c.count} le in
    let below_null = slots_of-tally_le s c 0 {m = suc n} {n = c.count} le in
    let apart = new.apart slot in
    let unused : tally slot (slots_of s c n ++ slots) ≡ 0 =
      rw (tally-append slot (slots_of s c n) slots) (ground (arith, below, apart)) in
    let real : slot ≢ 0 = ground (arith, below_null, new.not_null) in
    rw suc-add (
      push_new (push_slots s c n p) slot (n + p.capacity) real unused
        (omega (arith, is.total, new.fits)) (push_slots-IsPool s c n p new (omega arith) is))

-- Writes outside the pool's slots leave its lists as they are.
pub memory-IsPool :
    (p : Pool) (mem : Memory) {frees parked live slots : List ℕ}
    → ((a : ℕ) → 0 < tally a slots → mem a ≡ p.memory a)
    → IsPool p frees parked live slots
    → IsPool (record p { memory = mem }) frees parked live slots
memory-IsPool p mem {frees} {parked} same is = record {
  free_chain =
      Chain-frame p.memory mem p.free_head frees (λ a h. same a (omega (arith, is.tallied a)))
        is.free_chain;
  parked_chain =
      Chain-frame p.memory mem p.remote_head parked (λ a h. same a (omega (arith, is.tallied a)))
        is.parked_chain;
  tallied = is.tallied;
  once = is.once;
  no_null = is.no_null;
  numbered = is.numbered;
  sized = is.sized;
  total = is.total;
  bounded = is.bounded;
}

-- The pool with the chunk's stamped memory, before its slots are pushed.
abbrev pub stamped : Setup → Pool → Chunk → Memory → Memory
stamped s p c mem = if s.headers then stamp_owner s.layout c p.self mem else mem

abbrev listed : Setup → Pool → Chunk → Memory → Pool
listed s p c mem = record p {
  chunks = p.chunks ++ (c ∷ []);
  memory = stamped s p c mem;
  calls = suc p.calls;
}

listed-IsPool :
    (s : Setup) (p : Pool) (c : Chunk) (mem : Memory) {frees parked live slots : List ℕ}
    → IsPool (record p { memory = stamped s p c mem }) frees parked live slots
    → IsPool (listed s p c mem) frees parked live slots
listed-IsPool s p c mem is = same-IsPool refl refl refl refl refl is

-- A fresh chunk whose headers lie outside the pool's slots adds its slots to the free ones.
pub adopt-IsPool :
    (s : Setup) (p : Pool) (c : Chunk) (mem : Memory) {frees parked live slots : List ℕ}
    → IsFresh s c slots
    → ((a : ℕ) → 0 < tally a slots → stamped s p c mem a ≡ p.memory a)
    → IsPool p frees parked live slots
    → IsPool
        (adopt s p c mem)
        (slots_of s c c.count ++ frees)
        parked
        live
        (slots_of s c c.count ++ slots)
unfolding adopt
adopt-IsPool s p c mem new same is =
    let q = listed s p c mem in
    let cap : wrap ((push_slots s c c.count q).capacity + c.count) ≡ c.count + p.capacity =
      omega (arith, push_slots-capacity s c c.count q, new.fits, is.total) in
    rw cap (
      push_slots-IsPool s c c.count q new (omega arith)
        (listed-IsPool s p c mem (memory-IsPool p (stamped s p c mem) same is)))
