-- ===== src/Chunk/Outside.antt =====
-- The headers of a chunk are written inside its memory only.
use native.Mathlib.Nat.{suc-mul}
use allocazam.Prelude.{ℕ, zero, suc, ◌+◌, ◌*◌, ◌≤◌, ◌<◌, ◌≡◌, ◌≢◌, refl, ◌⊎◌, arith}
use allocazam.Memory.{Memory}
use allocazam.Layout.{Layout}
use allocazam.Chunk.{Chunk, stamp_owner, stamp_headers, clear_headers, granule_count}

-- The address lies outside the `bytes` bytes at `base`.
abbrev pub Outside : ℕ → ℕ → ℕ → Type 0
Outside base bytes a = (a < base) ⊎ (base + bytes ≤ a)

-- No header of the first `g` granules is at an address outside them.
stamp_headers-Outside :
    (owner base granule g : ℕ) (mem : Memory) (a : ℕ)
    → 0 < granule
    → Outside base (g * granule) a
    → stamp_headers owner base granule g mem a ≡ mem a
unfolding stamp_headers
stamp_headers-Outside owner base granule zero mem a pos out = refl
stamp_headers-Outside owner base granule (suc g) mem a pos out =
    let step = suc-mul g granule in
    let inner : Outside base (g * granule) a = ground (arith, step) in
    let other : a ≢ base + g * granule = ground (arith, step) in
    ground (arith, stamp_headers-Outside owner base granule g mem a pos inner)

pub clear_headers-Outside :
    (base granule g : ℕ) (mem : Memory) (a : ℕ)
    → 8 < granule
    → Outside base (g * granule) a
    → clear_headers base granule g mem a ≡ mem a
unfolding clear_headers
clear_headers-Outside base granule zero mem a pos out = refl
clear_headers-Outside base granule (suc g) mem a pos out =
    let step = suc-mul g granule in
    let inner : Outside base (g * granule) a = ground (arith, step) in
    let other : a ≢ base + g * granule = ground (arith, step) in
    let other_tag : a ≢ base + g * granule + 8 = ground (arith, step) in
    ground (arith, clear_headers-Outside base granule g mem a pos inner)

pub stamp_owner-Outside :
    (T : Layout) (c : Chunk) (owner : ℕ) (mem : Memory) (a : ℕ)
    → 0 < c.alloc_align
    → Outside c.nodes (granule_count T c * c.alloc_align) a
    → stamp_owner T c owner mem a ≡ mem a
unfolding stamp_owner
stamp_owner-Outside T c owner mem a pos out =
    ground
      (arith, stamp_headers-Outside owner c.nodes c.alloc_align (granule_count T c) mem a pos out)
