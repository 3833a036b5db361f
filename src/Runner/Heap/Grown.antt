-- ===== src/Runner/Heap/Grown.antt =====
-- What joining runs does to the other ones.
use native.Mathlib.Decide.{dec_lt, ℕ_discrete}
use allocazam.Prelude.{ℕ, ◌+◌, ◌≡◌, ◌≢◌, refl, sym, ap, ◌∙◌, List, ◌⊎◌, inl, true, false, arith}
use allocazam.Runner.Runs.{Runner, unlink_free}
use allocazam.Runner.Heap.{Inside, Heap, set, IsHole, IsClients}
use allocazam.Runner.Heap.Take.{Unlinked}
use allocazam.Runner.Heap.Join.{joined, set-same, set-other}

-- An allocated run, or an epilogue, of that size stands there.
abbrev pub Used : Heap → (a size : ℕ) → Type 0
Used H a size = (H.there a ≡ true) × (H.free a ≡ false) × (H.size a ≡ size)

-- The run that is being changed has grown from `h` to the one at `c`, over free runs only.
pub record IsGrown (r r' : Runner) (H H' : Heap) (h c : ℕ) : Type 0 where
  pub used : (a size : ℕ) → Used H' a size → Used H a size
  pub uses : (a size : ℕ) → Used H a size → Used H' a size
  pub inside : Inside H' H
  pub clients : (b : ℕ) → IsClients H h b → IsClients H' c b
  pub memory : (b : ℕ) → IsClients H h b → r'.memory b ≡ r.memory b

-- With the size that the code has added up, and no free run behind it.
pub record IsJoined (r r' : Runner) (H : Heap) (h c size : ℕ) : Type 0 where
  pub heap : Heap
  pub lists : ℕ → List ℕ
  pub hole : IsHole r' heap lists c
  pub grown : IsGrown r r' H heap h c
  pub added : size ≡ heap.size c
  pub next_used : heap.free (c + heap.size c) ≡ false

pub stays : (r : Runner) (H : Heap) (h : ℕ) → IsGrown r r H H h h
stays r H h = record {
  used = λ a size u. u;
  uses = λ a size u. u;
  inside = λ b w. w;
  clients = λ b c. c;
  memory = λ b c. refl;
}

-- Joining two free ones, of which one is being changed, is such a growth.
pub joined-IsGrown :
    (r : Runner) (H : Heap) (lists lists' : ℕ → List ℕ) (hole u h n : ℕ)
    → H.there h ≡ true
    → H.there n ≡ true
    → h + H.size h ≡ n
    → H.free h ≡ true
    → H.free n ≡ true
    → ((hole ≡ h) ⊎ (hole ≡ n))
    → Unlinked r H lists lists' hole u
    → IsGrown r (unlink_free r u) H (joined H h n (H.size h + H.size n)) hole h
joined-IsGrown r H lists lists' hole u h n here behind place free free' which un =
    let size = H.size h + H.size n in
    record {
      inside = λ b (a, there, from, below). elim (ℕ_discrete a h) [
        | yes e ↦ elim (dec_lt b n) [
          | yes lt ↦ (h, here, omega arith, omega arith)
          | no ge ↦ (
            n,
            behind,
            omega arith,
            (let grown = ap (set H.size h size) e ∙ set-same H.size h size in omega arith),
          )
        ]
        | no d ↦ (a, ground arith, from, (let old = set-other H.size h a size d in omega arith))
      ];
      used = λ a bytes (there, used, same).
          let not_h : a ≢ h = differs a h used free in
          (ground arith, used, sym (set-other H.size h a size not_h) ∙ same);
      uses = λ a bytes (there, used, same).
          let not_n : a ≢ n = differs a n used free' in
          (ground arith, used, set-other H.size h a size (differs a h used free) ∙ same);
      clients = λ b c.
          let not_h : c.at ≢ h = differs c.at h c.used free in
          let not_n : c.at ≢ n = differs c.at n c.used free' in
          record {
            at = c.at;
            there = ground (arith, c.there);
            used = c.used;
            other = not_h;
            from = c.from;
            below = rw (set-other H.size h c.at size not_h) c.below;
          };
      memory = λ b c. un.inner c.at b c.there (inl c.used) (omega (arith, c.from)) c.below;
    }
  where
    differs : (a x : ℕ) → H.free a ≡ false → H.free x ≡ true → a ≢ x
    differs a x used unused e = absurd (let same : H.free a ≡ H.free x = ap H.free e in cc)
