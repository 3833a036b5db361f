-- ===== src/Suballocated/Allocators.antt =====
-- The allocator's constructors, and when two allocators are equal.
use allocazam.Prelude.{ℕ, ◌≡◌, ◌≢◌, ◌↔◌, refl, Bool, true, false, not, arith, if◌then◌else◌}
use allocazam.Suballocated.{
  ResourceMode, default_state, explicit_state, runs_override, is_default, Allocator, Setup,
  bound_runs, construct_rebound, equals, has_allocation_resource,
}

-- The pointers are set that the mode says.
abbrev pub IsModal : ResourceMode → (state override : ℕ) → Type 0
IsModal default_state state override = (state ≡ 0) × (override ≡ 0)
IsModal explicit_state state override = (state ≢ 0) × (override ≡ 0)
IsModal runs_override state override = (state ≡ 0) × (override ≢ 0)

abbrev pub IsFormed : Allocator → Type 0
IsFormed a = IsModal a.mode a.state a.override

abbrev pub is_explicit : ResourceMode → Bool
is_explicit explicit_state = true
is_explicit _ = false

abbrev make : (state override : ℕ) → ResourceMode → Allocator
make state override mode = record { state = state; override = override; mode = mode }

equals_same :
    (x y x' y' : ℕ) (m m' : ResourceMode)
    → IsModal m x y
    → IsModal m' x' y'
    → x ≡ x'
    → y ≡ y'
    → m ≡ m'
equals_same x y x' y' default_state default_state f f' e e' = refl
equals_same x y x' y' default_state explicit_state f f' e e' = absurd (ground arith)
equals_same x y x' y' default_state runs_override f f' e e' = absurd (ground arith)
equals_same x y x' y' explicit_state default_state f f' e e' = absurd (ground arith)
equals_same x y x' y' explicit_state explicit_state f f' e e' = refl
equals_same x y x' y' explicit_state runs_override f f' e e' = absurd (ground arith)
equals_same x y x' y' runs_override default_state f f' e e' = absurd (ground arith)
equals_same x y x' y' runs_override explicit_state f f' e e' = absurd (ground arith)
equals_same x y x' y' runs_override runs_override f f' e e' = refl

-- Of allocators whose pointers are those of their modes, `operator==`, which does not compare the
-- modes, holds exactly of the same ones, which draw from the same state and runner.
pub equals_iff : (a b : Allocator) → IsFormed a → IsFormed b → (equals a b ≡ true) ↔ (a ≡ b)
unfolding equals
equals_iff a b fa fb = (
  λ e.
      let states : a.state ≡ b.state = ground arith in
      let runs : a.override ≡ b.override = ground arith in
      let modes =
        equals_same a.state a.override b.state b.override a.mode b.mode fa fb states runs in
      λ i. record { state = states i; override = runs i; mode = modes i },
  λ e. rw e (ground arith),
)

abbrev pub IsRebound : (s s' : Setup) (a b : Allocator) → Type 0
IsRebound s s' a b =
    IsFormed b
    × (has_allocation_resource b ≡ true)
    × (is_default b.mode ≡ is_default a.mode)
    × (bound_runs s' b ≡ (if is_default a.mode then 0 else bound_runs s a))
    × (equals (construct_rebound s' b) a ≡ not (is_explicit a.mode))

construct_from :
    (s s' : Setup) (state override : ℕ) (mode : ResourceMode)
    → IsModal mode state override
    → let a = make state override mode in IsRebound s s' a (construct_rebound s a)
unfolding construct_rebound bound_runs equals has_allocation_resource
construct_from s s' state override default_state f = (ground arith, refl, refl, refl, ground arith)
construct_from s s' state override explicit_state f =
    (ground arith, ground arith, refl, ground arith, ground arith)
construct_from s s' state override runs_override f =
    (ground arith, ground arith, refl, ground arith, ground arith)

-- A rebound allocator is formed and has what it needs, is in the default mode exactly if its source
-- is, and otherwise draws from the source's runner. Rebound again it equals the source exactly if
-- the source is not bound to a state.
pub construct_rebound-IsFormed :
    (s s' : Setup) (a : Allocator) → IsFormed a → IsRebound s s' a (construct_rebound s a)
construct_rebound-IsFormed s s' a formed = construct_from s s' a.state a.override a.mode formed
