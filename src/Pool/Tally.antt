-- ===== src/Pool/Tally.antt =====
-- How often an address stands in a list of slots, and chains of addresses through memory.
use allocazam.Prelude.{
  ℕ, ◌+◌, ◌<◌, ◌≡◌, ◌≢◌, refl, List, [], ◌∷◌, ◌++◌, arith, ◌==◌, ==_self, if◌then◌else◌, length,
}
use allocazam.Memory.{Memory, write}

abbrev pub tally : ℕ → List ℕ → ℕ
tally a [] = 0
tally a (x ∷ xs) = (if a == x then 1 else 0) + tally a xs

pub tally-append : (a : ℕ) (xs ys : List ℕ) → tally a (xs ++ ys) ≡ tally a xs + tally a ys
tally-append a [] ys = omega arith
tally-append a (x ∷ xs) ys = omega (arith, tally-append a xs ys)

-- The first occurrence is dropped.
abbrev pub drop_one : ℕ → List ℕ → List ℕ
drop_one a [] = []
drop_one a (x ∷ xs) = if a == x then xs else x ∷ drop_one a xs

pub tally-drop_one :
    (a b : ℕ) (xs : List ℕ)
    → 0 < tally b xs
    → tally a (drop_one b xs) + (if a == b then 1 else 0) ≡ tally a xs
tally-drop_one a b [] h = elim h [ ]
tally-drop_one a b (x ∷ xs) h = ground (arith, tally-drop_one a b xs)

pub length-drop_one :
    (b : ℕ) (xs : List ℕ) → 0 < tally b xs → length (drop_one b xs) + 1 ≡ length xs
length-drop_one b [] h = elim h [ ]
length-drop_one b (x ∷ xs) h = ground (arith, length-drop_one b xs)

-- From `head` the words lead through `xs`, all nonzero, to 0.
abbrev pub Chain : Memory → ℕ → List ℕ → Type 0
Chain mem head [] = head ≡ 0
Chain mem head (x ∷ xs) = (head ≡ x) × (x ≢ 0) × Chain mem (mem x) xs

-- A write at another address leaves a chain as it is.
pub Chain-write :
    (mem : Memory) (a v head : ℕ) (xs : List ℕ)
    → tally a xs ≡ 0
    → Chain mem head xs
    → Chain (write mem a v) head xs
Chain-write mem a v head [] out c = c
Chain-write mem a v head (x ∷ xs) out c = ground (arith, Chain-write mem a v (mem x) xs)

-- A chain depends on the words of its own addresses only.
pub Chain-frame :
    (mem mem' : Memory) (head : ℕ) (xs : List ℕ)
    → ((a : ℕ) → 0 < tally a xs → mem' a ≡ mem a)
    → Chain mem head xs
    → Chain mem' head xs
Chain-frame mem mem' head [] same c = c
Chain-frame mem mem' head (x ∷ xs) same c =
    let here : mem' x ≡ mem x = same x (ground arith) in
    (c.0, c.1, rw here (Chain-frame mem mem' (mem x) xs (λ a h. same a (ground arith)) c.2))

pub Chain-cons :
    (mem : Memory) (n head : ℕ) (xs : List ℕ)
    → n ≢ 0
    → tally n xs ≡ 0
    → Chain mem head xs
    → Chain (write mem n head) n (n ∷ xs)
Chain-cons mem n head xs ne out c =
    (refl, ne, rw (==_self n) (Chain-write mem n head head xs out c))
