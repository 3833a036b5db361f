-- ===== src/Suballocated/Cache/Lists.antt =====
-- The list of a class, which the links of its runs make in memory.
use allocazam.Prelude.{
  ℕ, zero, suc, ◌+◌, ◌%◌, ◌^◌, ◌≤◌, ◌<◌, ◌≡◌, ◌≢◌, refl, List, [], ◌∷◌, some, ◌⊎◌, inl, inr, true,
  false, arith, ◌==◌, ==_self, length,
}
use native.Mathlib.Decide.{ℕ_discrete}
use allocazam.Word.{size_max}
use allocazam.Memory.{Memory, write}
use allocazam.Pool.Tally.{tally, drop_one, length-drop_one, Chain, Chain-write}
use allocazam.Suballocated.{Class}
use allocazam.Suballocated.Cache.{
  cached_owner, tls_push, find_owned, unlink_cached, tls_pop_for_owner, tls_pop_any,
}

-- The class holds these runs, each once and aligned, in this order, and counts them.
pub record IsCached (mem : Memory) (cls : Class) (nodes : List ℕ) : Type 0 where
  pub chain : Chain mem cls.head nodes
  pub counted : cls.count ≡ length nodes
  pub once : (a : ℕ) → tally a nodes ≤ 1
  pub aligned : (a : ℕ) → 0 < tally a nodes → a % 16 ≡ 0
  pub bounded : length nodes ≤ size_max

-- A run that is aligned and not in the list becomes its first.
pub push-IsCached :
    (mem : Memory) (cls : Class) (p owner : ℕ) (nodes : List ℕ)
    → p ≢ 0
    → p % 16 ≡ 0
    → tally p nodes ≡ 0
    → length nodes < size_max
    → IsCached mem cls nodes
    → IsCached (tls_push mem cls p owner).0 (tls_push mem cls p owner).1 (p ∷ nodes)
unfolding tls_push
push-IsCached mem cls p owner nodes ne whole new room is =
    let apart : tally (p + 8) (p ∷ nodes) ≡ 0 = ground (arith, is.aligned (p + 8)) in
    record {
      chain =
          Chain-write (write mem p cls.head) (p + 8) owner p (p ∷ nodes) apart
            (refl, ne, rw (==_self p) (Chain-write mem p cls.head cls.head nodes new is.chain));
      counted = omega (arith, is.counted);
      once = λ a. ground (arith, is.once a);
      aligned = λ a h. ground (arith, is.aligned a);
      bounded = omega arith;
    }

no_null : (mem : Memory) (head : ℕ) (xs : List ℕ) → Chain mem head xs → tally 0 xs ≡ 0
no_null mem head [] c = refl
no_null mem head (x ∷ xs) c = ground (arith, c.1, no_null mem (mem x) xs c.2)

tally-drop_one_le : (a b : ℕ) (xs : List ℕ) → tally a (drop_one b xs) ≤ tally a xs
tally-drop_one_le a b [] = omega arith
tally-drop_one_le a b (x ∷ xs) = ground (arith, tally-drop_one_le a b xs)

module _ (mem : Memory) (owner : ℕ) where
  -- No run of the list has that owner.
  abbrev pub NoneOf : List ℕ → Type 0
  NoneOf xs = (a : ℕ) → 0 < tally a xs → cached_owner mem a ≢ owner

  -- What the search finds behind `prev` in the list from `head` on: no run of that owner; or one,
  -- which is the first of the list, or stands behind another one of it. The list without it is a
  -- chain once the link before it leads past it.
  abbrev Found : (prev head : ℕ) → List ℕ → ℕ × ℕ → Type 0
  Found prev head xs (before, node) =
      ((node ≡ 0) × NoneOf xs)
      ⊎ ((node ≢ 0)
          × (0 < tally node xs)
          × (cached_owner mem node ≡ owner)
          × (((before ≡ prev) × (head ≡ node) × Chain mem (mem node) (drop_one node xs))
              ⊎ ((before ≢ 0)
                  × (0 < tally before xs)
                  × Chain (write mem before (mem node)) head (drop_one node xs))))

  deeper :
      (prev x : ℕ) (xs : List ℕ) (found : ℕ × ℕ)
      → x ≢ 0
      → tally x xs ≡ 0
      → cached_owner mem x ≢ owner
      → Chain mem (mem x) xs
      → Found x (mem x) xs found
      → Found prev x (x ∷ xs) found
  deeper prev x xs (before, node) ne new other c (inl (null, unowned)) =
      inl (
        null,
        λ a h. elim (ℕ_discrete a x) [ yes e ↦ rw e other | no d ↦ unowned a (ground arith) ],
      )
  deeper prev x xs (before, node) ne new other c (inr (real, held, owned, inl (e, first, rest))) =
      let differs : (node == x) ≡ false = ground arith in
      inr (
        real,
        ground arith,
        owned,
        inr (
          rw e ne,
          ground arith,
          rw (e, differs)
              (
                refl,
                ne,
                rw (==_self x) (
                    Chain-write mem x (mem node) (mem node) (drop_one node xs)
                      (omega (arith, tally-drop_one_le x node xs)) rest),
              ),
        ),
      )
  deeper prev x xs (before, node) ne new other c (inr (real, held, owned, inr (ne', there, rest))) =
      let differs : (node == x) ≡ false = ground arith in
      let apart : (before == x) ≡ false = ground arith in
      inr (real, ground arith, owned, inr (ne', ground arith, rw differs (refl, ne, rw apart rest)))

  find_owned-Found :
      (rounds prev head : ℕ) (xs : List ℕ)
      → length xs ≤ rounds
      → ((a : ℕ) → tally a xs ≤ 1)
      → Chain mem head xs
      → (found : ℕ × ℕ) × (find_owned rounds mem prev head owner ≡ some found)
        × Found prev head xs found
  unfolding find_owned
  find_owned-Found zero prev head [] enough once c =
      ((prev, 0), rw c refl, inl (refl, λ a h. absurd (omega arith)))
  find_owned-Found (suc rounds) prev head [] enough once c =
      ((prev, 0), rw c refl, inl (refl, λ a h. absurd (omega arith)))
  find_owned-Found zero prev head (x ∷ xs) enough once c = absurd (omega arith)
  find_owned-Found (suc rounds) prev head (x ∷ xs) enough once c =
      let real : (head == 0) ≡ false = ground (arith, c.0, c.1) in
      let new : tally x xs ≡ 0 = ground (arith, once x) in
      elim (ℕ_discrete (cached_owner mem x) owner) [
        | yes owned ↦
            let test : (cached_owner mem head == owner) ≡ true = ground (arith, c.0) in
            (
              (prev, head),
              rw (real, test) refl,
              rw c.0 (inr (c.1, ground arith, owned, inl (refl, refl, rw (==_self x) c.2))),
            )
        | no other ↦
            let test : (cached_owner mem head == owner) ≡ false = ground (arith, c.0) in
            let (found, e, is) =
              find_owned-Found rounds x (mem x) xs (omega arith) (λ a. ground (arith, once a))
                c.2 in
            (found, rw (real, test, c.0) e, rw c.0 (deeper prev x xs found c.1 new other c.2 is))
      ]

-- What taking one run of an owner from a class leads to: the class and the memory are as before, and
-- no run has that owner; or the run that is taken, one of the owner's, is the only one that the
-- class no longer lists, and no word outside the listed runs' links is written.
abbrev pub Popped : Memory → Class → (nodes : List ℕ) → (owner : ℕ) → Memory × Class × ℕ → Type 0
Popped mem cls nodes owner (mem', cls', node) =
    ((node ≡ 0) × (mem' ≡ mem) × (cls' ≡ cls) × NoneOf mem owner nodes)
    ⊎ ((node ≢ 0)
        × (0 < tally node nodes)
        × (cached_owner mem node ≡ owner)
        × IsCached mem' cls' (drop_one node nodes)
        × ((a : ℕ) → tally a nodes ≡ 0 → mem' a ≡ mem a))

-- One node less.
drop-IsCached :
    (mem mem' : Memory) (cls cls' : Class) (node : ℕ) (nodes : List ℕ)
    → 0 < tally node nodes
    → cls'.count ≡ (cls.count + size_max) % 2 ^ 64
    → Chain mem' cls'.head (drop_one node nodes)
    → IsCached mem cls nodes
    → IsCached mem' cls' (drop_one node nodes)
drop-IsCached mem mem' cls cls' node nodes held fewer chain is = record {
  chain = chain;
  counted = omega (arith, is.counted, is.bounded, length-drop_one node nodes held);
  once = λ a. omega (arith, is.once a, tally-drop_one_le a node nodes);
  aligned = λ a h. is.aligned a (omega (arith, tally-drop_one_le a node nodes));
  bounded = omega (arith, is.bounded, length-drop_one node nodes held);
}

-- On a well-formed class `_tls_pop_for_owner` ends within as many nodes as the class counts, and
-- takes a run of the owner, or returns null exactly if no run of the class has that owner.
pub tls_pop_for_owner-Popped :
    (mem : Memory) (cls : Class) (owner : ℕ) (nodes : List ℕ)
    → IsCached mem cls nodes
    → (popped : Memory × Class × ℕ) × (tls_pop_for_owner mem cls owner ≡ some popped)
      × Popped mem cls nodes owner popped
unfolding tls_pop_for_owner unlink_cached
tls_pop_for_owner-Popped mem cls owner nodes is =
    let ((before, node), e, found) =
      find_owned-Found mem owner cls.count 0 cls.head nodes (omega (arith, is.counted)) is.once
        is.chain in
    elim found [
      | inl (null, unowned) ↦
          ((mem, cls, 0), rw (tls_pop_for_owner, e, null) refl, inl (refl, refl, refl, unowned))
      | inr (real, held, owned, inl (first, head, rest)) ↦
          let test : (node == 0) ≡ false = ground arith in
          (
            _,
            rw (tls_pop_for_owner, e, test, unlink_cached, first) refl,
            inr (
              real,
              held,
              owned,
              drop-IsCached mem mem cls _ node nodes held refl rest is,
              λ a h. refl,
            ),
          )
      | inr (real, held, owned, inr (ne, there, rest)) ↦
          let test : (node == 0) ≡ false = ground arith in
          let behind : (before == 0) ≡ false = ground arith in
          (
            _,
            rw (tls_pop_for_owner, e, test, unlink_cached, behind) refl,
            inr (
              real,
              held,
              owned,
              drop-IsCached mem (write mem before (mem node)) cls _ node nodes held refl rest is,
              λ a h. ground arith,
            ),
          )
    ]

-- The first run is taken, if there is one.
pub tls_pop_any-IsCached :
    (mem : Memory) (cls : Class) (node : ℕ) (nodes : List ℕ)
    → IsCached mem cls (node ∷ nodes)
    → ((tls_pop_any mem cls).1 ≡ node) × IsCached mem (tls_pop_any mem cls).0 nodes
unfolding tls_pop_any
tls_pop_any-IsCached mem cls node nodes is =
    let test : (cls.head == 0) ≡ false = ground (arith, is.chain.0, is.chain.1) in
    rw test (
      is.chain.0,
      record {
        chain = rw is.chain.0 is.chain.2;
        counted = omega (arith, is.counted, is.bounded);
        once = λ a. omega (arith, is.once a);
        aligned = λ a h. is.aligned a (ground arith);
        bounded = omega (arith, is.bounded);
      },
    )
