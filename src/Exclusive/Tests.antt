-- ===== src/Exclusive/Tests.antt =====
-- The theorems on the exclusive resource at concrete inputs.
use Prim.Native.String.{String}
use allocazam.Prelude.{◌+◌, ◌*◌, ◌≡◌, ◌<◌, ◌≤◌, ◌⊎◌, refl, List, [], ◌∷◌, arith}
use allocazam.Word.{size_max}
use allocazam.Word.Pow2.{has_single_bit, is_aligned, pad_of}
use allocazam.Layout.{Layout, IsLayout}
use allocazam.OwnedMemory.{disabled}
use allocazam.OwnedMemory.Laws.{GivesNone}
use allocazam.OwnedMemory.Tests.{small_platform, small_platform-IsPlatform}
use allocazam.Exception.{bad_alloc, bad_array_new_length, invalid_argument, ok, throw}
use allocazam.Exclusive.{Resource, construct, claimed, claim, release, expand}
use allocazam.Exclusive.Claims.{IsValid, Claimable, hold, construct-IsValid, claim-Claimable}
use allocazam.Exclusive.History.{
  Call, claims, releases, expands, run, replies, region, view, lease_replies, step, Keeps,
  replies-Lease, run-IsValid, held_until_release,
}
use allocazam.Exclusive.Allocator.{
  allocate, allocate_at_least, deallocate, noheap_state, NoheapState, fixed_state, FixedState,
}
use allocazam.Exclusive.Allocator.Calls.{
  allocate-cases, allocate_at_least-cases, deallocate-allocate_at_least, deallocate-allocate,
}
use allocazam.Exclusive.Allocator.States.{
  fresh, required, IsCarved, IsOwned, noheap_state-cases, fixed_state-cases,
}

abbrev record_layout : Layout
record_layout = record { size = 24; align = 8 }

record_layout-IsLayout : IsLayout record_layout
unfolding has_single_bit
record_layout-IsLayout = record {
  size_pos = omega arith;
  size_fits = omega arith;
  align_pow2 = refl;
  size_multiple = refl;
}

abbrev free_region : Resource
free_region = fresh 4096 100 16

free_region-IsValid : IsValid free_region
unfolding construct has_single_bit is_aligned
free_region-IsValid = (construct-IsValid 4096 100 16 refl).0

claim-Claimable_example :
    (Claimable free_region 8 32 8
      × (claim free_region 8 32 8 ≡ (hold free_region 8 32 8, free_region.base)))
    ⊎ ((¬ Claimable free_region 8 32 8) × (claim free_region 8 32 8 ≡ (free_region, 0)))
claim-Claimable_example = claim-Claimable free_region 8 32 8 free_region-IsValid

abbrev calls : List Call
calls =
    claims 24 96 8 ∷ expands 4096 97 100 ∷ claims 8 8 8 ∷ releases 4096 100 8 ∷ claims 8 8 8 ∷ []

calls-replies : replies free_region calls ≡ 4096 ∷ 100 ∷ 0 ∷ 0 ∷ 4096 ∷ []
unfolding replies step claim release expand has_single_bit is_aligned
calls-replies = refl

replies-Lease_example :
    replies free_region calls ≡ lease_replies (region free_region) (view free_region) calls
replies-Lease_example = replies-Lease free_region calls free_region-IsValid

run-IsValid_example :
    IsValid (run free_region calls) × (region (run free_region calls) ≡ region free_region)
run-IsValid_example = run-IsValid free_region calls free_region-IsValid

abbrev held_calls : List Call
held_calls = claims 8 8 8 ∷ expands 4096 90 100 ∷ []

held_until_release_example :
    Keeps (hold free_region 24 96 8) (run (hold free_region 24 96 8) held_calls)
    × (claim (run (hold free_region 24 96 8) held_calls) 8 8 8
        ≡ (run (hold free_region 24 96 8) held_calls, 0))
unfolding claimed
held_until_release_example = held_until_release (hold free_region 24 96 8) held_calls 8 8 8 refl tt

allocate-cases_example : allocate record_layout free_region 3 ≡ (hold free_region 72 72 8, ok 4096)
unfolding claimed
allocate-cases_example =
    allocate-cases record_layout free_region 3 record_layout-IsLayout free_region-IsValid
      (omega arith)

allocated : allocate record_layout free_region 3 ≡ (hold free_region 72 72 8, ok 4096)
unfolding claimed
allocated =
    allocate-cases record_layout free_region 3 record_layout-IsLayout free_region-IsValid
      (omega arith)

deallocate-allocate_example :
    deallocate record_layout (hold free_region 72 72 8) 4096 3 ≡ free_region
deallocate-allocate_example =
    deallocate-allocate record_layout free_region 3 3 record_layout-IsLayout free_region-IsValid
      (hold free_region 72 72 8) 4096 (omega arith) (omega arith) (omega arith) (omega arith)
      (omega arith) allocated

noheap_state-cases_example :
    ((s : NoheapState) × (noheap_state record_layout 4100 100 ≡ ok s)
      × IsCarved record_layout 4100 100 s)
    ⊎ ((why : String) × (noheap_state record_layout 4100 100 ≡ throw (invalid_argument why))
        × (100 < pad_of (required record_layout) 4100 + record_layout.size))
noheap_state-cases_example =
    noheap_state-cases record_layout 4100 100 record_layout-IsLayout (omega arith) (omega arith)

fixed_state-cases_example :
    ((s : FixedState) × (fixed_state disabled small_platform record_layout 10 ≡ ok s)
      × IsOwned record_layout 10 s)
    ⊎ ((fixed_state disabled small_platform record_layout 10 ≡ throw bad_array_new_length)
        × (size_max < 10 * record_layout.size))
    ⊎ ((fixed_state disabled small_platform record_layout 10 ≡ throw bad_alloc)
        × (10 * record_layout.size ≤ size_max)
        × GivesNone disabled small_platform (10 * record_layout.size) (required record_layout))
fixed_state-cases_example =
    fixed_state-cases disabled small_platform record_layout 10 small_platform-IsPlatform
      record_layout-IsLayout (omega arith) (omega arith)

at_least : allocate_at_least record_layout free_region 2 ≡ (hold free_region 48 96 8, ok (4096, 4))
unfolding claimed
at_least =
    allocate_at_least-cases record_layout free_region 2 record_layout-IsLayout free_region-IsValid
      (omega arith) (omega arith)

deallocate-allocate_at_least_example :
    deallocate record_layout (hold free_region 48 96 8) 4096 3 ≡ free_region
deallocate-allocate_at_least_example =
    deallocate-allocate_at_least record_layout free_region 2 3 record_layout-IsLayout
      free_region-IsValid (hold free_region 48 96 8) 4096 4 (omega arith) (omega arith)
      (omega arith) (omega arith) (omega arith) at_least
