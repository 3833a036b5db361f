-- ===== src/Exclusive/Allocator/States.antt =====
-- The two constructors of the exclusive state.
use Prim.Native.String.{String}
use native.Mathlib.Nat.{div-mul-le_self, lt-div-mul-add, mul-pos, le-div_iff_mul-le}
use native.Mathlib.Decide.{dec_le}
use allocazam.Prelude.{
  ℕ, ◌+◌, ◌-◌, ◌*◌, ◌/◌, ◌%◌, ◌≤◌, ◌<◌, ◌≡◌, ◌≢◌, refl, ◌⊎◌, inl, inr, true, false, some, arith,
  max, ◌==◌, Bool-cases,
}
use allocazam.Word.{size_mod, size_max, checked_mul}
use allocazam.Word.Checked.{checked_mul-eq}
use allocazam.Word.Pow2.{
  has_single_bit, has_single_bit_iff, is_aligned_of_mod, single_bit_pos, std_align-eq, pad_of,
  pad_of-mod,
}
use allocazam.Layout.{Layout, IsLayout}
use allocazam.OwnedMemory.{
  HugePages, Platform, IsPlatform, Expected, OwnedMemory, value, unexpected, max_align, own_memory,
  allocate_owned_memory,
}
use allocazam.OwnedMemory.Laws.{IsRegion, allocate-IsRegion, GivesNone, allocate-GivesNone}
use allocazam.Exception.{bad_alloc, bad_array_new_length, invalid_argument, ok, throw}
use allocazam.Exclusive.{Resource, construct, claimed}
use allocazam.Exclusive.Claims.{IsValid, construct-IsValid}
use allocazam.Exclusive.Allocator.{
  NoheapState, noheap_config, noheap_state, FixedState, fixed_config, fixed_state,
}

-- The resource's fields as the constructor leaves them.
abbrev pub fresh : ℕ → ℕ → ℕ → Resource
fresh base bytes alignment = record {
  base = base;
  usable_bytes = bytes;
  effective_alignment = alignment;
  claimed_min_bytes = 0;
  claimed_max_bytes = 0;
  claimed_alignment = 0;
}

construct-ok :
    (base bytes alignment : ℕ)
    → base ≢ 0
    → bytes ≢ 0
    → has_single_bit alignment ≡ true
    → base % alignment ≡ 0
    → construct base bytes alignment ≡ ok (fresh base bytes alignment)
unfolding construct
construct-ok base bytes alignment nn ne pow aligned =
    ground (arith, single_bit_pos base alignment pow, is_aligned_of_mod base alignment pow aligned)

-- The strictest of the value's alignment and `max_align_t`'s.
abbrev pub required : Layout → ℕ
required T = max T.align max_align

required-pow2 : (T : Layout) → IsLayout T → has_single_bit (required T) ≡ true
required-pow2 T lay = elim (dec_le T.align max_align) [
  | yes h ↦
      let e : required T ≡ max_align = omega arith in
      rw e ((has_single_bit_iff max_align).1 (4, omega arith, refl))
  | no h ↦ let e : required T ≡ T.align = omega arith in rw e lay.align_pow2
]

-- The resource lies in the span, aligned, without a claim, and holds as many values as fit.
pub record IsCarved (T : Layout) (data_begin size : ℕ) (s : NoheapState) : Type 0 where
  pub valid : IsValid s.resource
  pub free : claimed s.resource ≡ false
  pub starts : s.resource.base ≡ data_begin + pad_of (required T) data_begin
  pub ends : s.resource.base + s.resource.usable_bytes ≤ data_begin + size
  pub aligned : s.resource.base % required T ≡ 0
  pub whole : s.resource.usable_bytes ≡ s.element_capacity * T.size
  pub positive : 0 < s.element_capacity
  pub most : data_begin + size < s.resource.base + s.resource.usable_bytes + T.size

module _ (T : Layout) (data_begin size : ℕ) (lay : IsLayout T) where
  pad : ℕ
  pad = pad_of (required T) data_begin

  count : ℕ
  unfolding pad
  count = (size - pad) / T.size

  carved : NoheapState
  unfolding count
  carved = record {
    resource = fresh (data_begin + pad) (count * T.size) (required T);
    element_capacity = count;
  }

  required_pos : 0 < required T
  required_pos = single_bit_pos 0 (required T) (required-pow2 T lay)

  module _ (nn : data_begin ≢ 0) (fits : data_begin + size < size_mod)
      (room : pad_of (required T) data_begin + T.size ≤ size) where
    count_pos : 0 < count
    unfolding count
    count_pos = (le-div_iff_mul-le lay.size_pos).1 (omega arith)

    carved_bytes : (count * T.size ≤ size - pad) × (0 < count * T.size)
    unfolding count
    carved_bytes = (div-mul-le_self (size - pad) T.size, mul-pos count_pos lay.size_pos)

    made :
        construct (data_begin + pad) (count * T.size) (required T)
        ≡ ok (fresh (data_begin + pad) (count * T.size) (required T))
    unfolding pad
    made =
        construct-ok (data_begin + pad) (count * T.size) (required T) (omega arith)
          (omega (arith, carved_bytes)) (required-pow2 T lay)
          (pad_of-mod (required T) data_begin required_pos)

    carved-ok : noheap_state T data_begin size ≡ ok carved
    unfolding noheap_state noheap_config carved
    carved-ok = ground (
      arith,
      std_align-eq (required T) T.size data_begin size,
      made,
      count_pos,
      carved_bytes,
      lay.size_pos,
    )

    carved-IsCarved : IsCarved T data_begin size carved
    unfolding carved
    carved-IsCarved = record {
      valid = (construct-IsValid _ _ _ made).0;
      free = (construct-IsValid _ _ _ made).1;
      starts = refl;
      ends = omega (arith, div-mul-le_self (size - pad) T.size);
      aligned = pad_of-mod (required T) data_begin required_pos;
      whole = refl;
      positive = count_pos;
      most = omega (arith, lt-div-mul-add {a = size - pad} {b = T.size} lay.size_pos);
    }

-- On a span that does not wrap round the address space, the noheap constructor either carves an
-- aligned, unclaimed resource out of the span that holds every value that fits behind the padding,
-- or, exactly when not one value fits there, throws `invalid_argument`.
pub noheap_state-cases :
    (T : Layout) (data_begin size : ℕ)
    → IsLayout T
    → data_begin ≢ 0
    → data_begin + size < size_mod
    → ((s : NoheapState) × (noheap_state T data_begin size ≡ ok s) × IsCarved T data_begin size s)
      ⊎ ((why : String) × (noheap_state T data_begin size ≡ throw (invalid_argument why))
          × (size < pad_of (required T) data_begin + T.size))
unfolding noheap_state noheap_config
noheap_state-cases T data_begin size lay nn fits =
    elim (dec_le (pad_of (required T) data_begin + T.size) size) [
      | yes room ↦ inl (
        carved T data_begin size lay,
        carved-ok T data_begin size lay nn fits room,
        carved-IsCarved T data_begin size lay nn fits room,
      )
      | no small ↦ inr (elim (Bool-cases (size == 0)) [
        | inl e ↦ ("exclusive state backing must not be empty", rw e, omega arith)
        | inr e ↦ (
          "exclusive state backing cannot satisfy value alignment",
          ground (arith, std_align-eq (required T) T.size data_begin size),
          omega arith,
        )
      ])
    ]

-- The state owns memory for `n` values and has them all in an unclaimed resource.
pub record IsOwned (T : Layout) (n : ℕ) (s : FixedState) : Type 0 where
  pub valid : IsValid s.resource
  pub free : claimed s.resource ≡ false
  pub counted : s.element_capacity ≡ n
  pub whole : s.resource.usable_bytes ≡ n * T.size
  pub same_base : s.resource.base ≡ s.backing.base
  pub inside : s.resource.usable_bytes ≤ s.backing.bytes
  pub strict : required T ≤ s.resource.effective_alignment

fixed_state-IsOwned :
    (huge : HugePages) (env : Platform) (T : Layout) (n : ℕ) (m : OwnedMemory)
    → n ≢ 0
    → checked_mul n T.size ≡ some (n * T.size)
    → own_memory huge env (n * T.size) (required T) ≡ ok m
    → IsRegion (n * T.size) (required T) m
    → (s : FixedState) × (fixed_state huge env T n ≡ ok s) × IsOwned T n s
unfolding fixed_state fixed_config
fixed_state-IsOwned huge env T n m ne times got reg =
    let made =
      construct-ok m.base (n * T.size) m.alignment reg.not_null (omega (arith, reg.not_empty))
        reg.pow2 reg.aligned in
    let (v, free) = construct-IsValid _ _ _ made in
    (
      record {
        backing = m;
        resource = fresh m.base (n * T.size) m.alignment;
        element_capacity = n;
      },
      ground (arith, made),
      record {
        valid = v;
        free = free;
        counted = refl;
        whole = refl;
        same_base = refl;
        inside = reg.large;
        strict = reg.stricter;
      },
    )

-- On a platform that keeps its promises, the fixed constructor with `0 < n` either owns a region
-- for `n` values, unclaimed, or throws: `bad_array_new_length` exactly when the byte count does not
-- fit, `bad_alloc` only where it fits and the platform gives no memory for it. It never throws
-- `invalid_argument`.
pub fixed_state-cases :
    (huge : HugePages) (env : Platform) (T : Layout) (n : ℕ)
    → IsPlatform env
    → IsLayout T
    → n ≢ 0
    → n ≤ size_max
    → ((s : FixedState) × (fixed_state huge env T n ≡ ok s) × IsOwned T n s)
      ⊎ ((fixed_state huge env T n ≡ throw bad_array_new_length) × (size_max < n * T.size))
      ⊎ ((fixed_state huge env T n ≡ throw bad_alloc)
          × (n * T.size ≤ size_max)
          × GivesNone huge env (n * T.size) (required T))
unfolding fixed_state fixed_config own_memory
fixed_state-cases huge env T n plat lay ne small = elim (dec_le (n * T.size) size_max) [
  | no big ↦ inr (
      inl
        (ground (arith, checked_mul-eq n T.size small (omega (arith, lay.size_fits))), omega arith))
  | yes fits ↦
      let times : checked_mul n T.size ≡ some (n * T.size) =
        ground (arith, checked_mul-eq n T.size small (omega (arith, lay.size_fits))) in
      go times fits (allocate_owned_memory huge env (n * T.size) (required T)) refl
]
  where
    go :
        checked_mul n T.size ≡ some (n * T.size)
        → n * T.size ≤ size_max
        → (x : Expected) → allocate_owned_memory huge env (n * T.size) (required T) ≡ x
        → ((s : FixedState) × (fixed_state huge env T n ≡ ok s) × IsOwned T n s)
          ⊎ ((fixed_state huge env T n ≡ throw bad_array_new_length) × (size_max < n * T.size))
          ⊎ ((fixed_state huge env T n ≡ throw bad_alloc)
              × (n * T.size ≤ size_max)
              × GivesNone huge env (n * T.size) (required T))
    go times fits (value m) e = inl (
        fixed_state-IsOwned huge env T n m ne times (rw (e, own_memory))
          (allocate-IsRegion huge env (n * T.size) (required T) m plat fits e))
    go times fits (unexpected why) e = inr (
        inr (
          ground arith,
          fits,
          allocate-GivesNone huge env (n * T.size) (required T) why
              (omega (arith, mul-pos {m = n} {n = T.size} (omega arith) lay.size_pos)) (omega arith)
              (required-pow2 T lay) e,
        ))
