-- ===== src/Shared/Effects.antt =====
-- Calls that may raise, over an explicit state: what was written before a raise stays written.
use startprojectformillion.Base.{Bool, true, false, ◌≡◌, ◌⊎◌, inl, inr, refl}
use startprojectformillion.Shared.Errors.{InternalErrorCategory}

pub data Exception : Type 0 where
  persistence_dependency_error : InternalErrorCategory → Exception
  value_error validation_error type_error assertion_error other_exception : Exception

pub data Result (A : Type 0) : Type 0 where
  ok : A → Result A
  err : Exception → Result A

abbrev pub Exec : Type 0 → Type 0 → Type 0
Exec S A = S → Result A × S

-- `except (PersistenceDependencyError, ValueError)`
abbrev pub is_store_error : Exception → Bool
is_store_error (persistence_dependency_error c) = true
is_store_error value_error = true
is_store_error _ = false

abbrev pub IsOk : {A : Type 0} → Result A → Type 0
IsOk (ok a) = Unit
IsOk (err e) = ⊥

-- To split on the outcome of a call and keep the equation.
pub Result-cases :
    {A : Type 0} (r : Result A) → ((e : Exception) × (r ≡ err e)) ⊎ ((a : A) × (r ≡ ok a))
Result-cases (ok a) = inr (a, refl)
Result-cases (err e) = inl (e, refl)

-- The first exception ends the chain.
infixl 5 ◌>>=◌
abbrev pub ◌>>=◌ : {A B : Type 0} → Result A → (A → Result B) → Result B
err e >>= next = err e
ok a >>= next = next a

infixl 5 ◌>>◌
abbrev pub ◌>>◌ : {A B : Type 0} → Result A → Result B → Result B
err e >> next = err e
ok a >> next = next
