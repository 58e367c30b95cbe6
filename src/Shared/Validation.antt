-- ===== src/Shared/Validation.antt =====
-- The identifier checks of backend/src/app/security/validation.py. Python's integers are unbounded
-- and signed; `bool` values, which the source refuses, are no integers here.
use startprojectformillion.Base.{ℕ, ◌-◌, ◌^◌, ◌≤◌, ◌<◌, ltb, nat_beq, if◌then◌else◌, ◌≡◌, arith}
use startprojectformillion.Shared.Effects.{Result, ok, err, validation_error}

-- `negsuc n` is -(n + 1).
pub data ℤ : Type 0 where
  pos : ℕ → ℤ
  negsuc : ℕ → ℤ

abbrev pub max_id : ℕ
max_id = 2 ^ 63 - 1

-- The validated number comes back as a natural.
unfoldable pub validate_telegram_user_id : ℤ → Result ℕ
validate_telegram_user_id (negsuc n) = err validation_error
validate_telegram_user_id (pos n) =
    if nat_beq n 0
    then err validation_error
    else if ltb max_id n
    then err validation_error
    else ok n

unfoldable pub validate_telegram_update_id : ℤ → Result ℕ
validate_telegram_update_id (negsuc n) = err validation_error
validate_telegram_update_id (pos n) = if ltb max_id n then err validation_error else ok n

pub user_id_bounds :
    (v : ℤ) {n : ℕ} → validate_telegram_user_id v ≡ ok n → (v ≡ pos n) × (0 < n) × (n ≤ max_id)
unfolding validate_telegram_user_id
user_id_bounds (pos n) h = ground arith
user_id_bounds (negsuc n) h = ground arith
