-- ===== src/Exception.antt =====
-- The exceptions that the library throws, and outcomes that may be one.
use Prim.Native.String.{String}
use allocazam.Prelude.{◌≡◌, refl, Bool, true, false, Option, none, some, ◌⊎◌, inl, inr}

pub data Exception : Type 0 where
  invalid_argument : String → Exception
  bad_array_new_length bad_alloc : Exception

-- What a constructor or a call returns, or the exception that leaves it.
pub data Outcome {ℓ} (R : Type ℓ) : Type ℓ where
  throw : Exception → Outcome R
  ok : R → Outcome R

module _ {ℓ κ} {R : Type ℓ} {S : Type κ} where
  infixl 5 ◌>>=◌
  abbrev pub ◌>>=◌ : Outcome R → (R → Outcome S) → Outcome S
  throw why >>= next = throw why
  ok result >>= next = next result

infixl 5 ◌>>◌
abbrev pub ◌>>◌ {ℓ} : {S : Type ℓ} → Outcome (Unit {0}) → Outcome S → Outcome S
first >> second = first >>= λ done. second

-- `if (bad) throw e;`
abbrev pub throw_if : Bool → Exception → Outcome (Unit {0})
throw_if false why = ok tt
throw_if true why = throw why

-- An out parameter with a failure flag, and the exception thrown on `false`.
abbrev pub or_throw {ℓ} : {R : Type ℓ} → Option R → Exception → Outcome R
or_throw (some result) why = ok result
or_throw none why = throw why

-- A chain behind `or_throw` that returns has passed the test.
pub or_throw_inv {ℓ κ} :
    {R : Type ℓ} {S : Type κ} (o : Option R) (why : Exception) (next : R → Outcome S) {s : S}
    → (or_throw o why >>= next) ≡ ok s
    → (r : R) × (o ≡ some r) × (next r ≡ ok s)
or_throw_inv none why next e = cc
or_throw_inv (some r) why next e = (r, refl, e)

-- Either an exception or a result.
pub Outcome-cases {ℓ} :
    {R : Type ℓ} (o : Outcome R) → ((why : Exception) × (o ≡ throw why)) ⊎ ((x : R) × (o ≡ ok x))
Outcome-cases (throw why) = inl (why, refl)
Outcome-cases (ok x) = inr (x, refl)
