-- ===== src/Shared/Json.antt =====
-- What `json.loads` gives, as far as the program looks at it, and what it asks of such values. Of a
-- float the program only learns whether it equals 1; of an array nothing.
use startprojectformillion.Base.{ℕ, String, Bool, false, if◌then◌else◌, str_eq, nat_beq}
use startprojectformillion.Shared.{Result, err, validation_error}
use startprojectformillion.Shared.Validation.{ℤ, pos, validate_telegram_user_id}

mutual
  pub data Json : Type 0 where
    null : Json
    bool : Bool → Json
    int : ℤ → Json
    -- whether it equals 1
    real : Bool → Json
    str : String → Json
    array : Json
    object : Fields → Json

  -- A `dict`: a key is found where it stands first.
  pub data Fields : Type 0 where
    nil : Fields
    field : String → Json → Fields → Fields

-- `d.get(key)`, which is `None` as `null` is.
unfoldable pub get : String → Fields → Json
get key nil = null
get key (field k value rest) = if str_eq k key then value else get key rest

-- `value == 1`
abbrev pub equals_one : Json → Bool
equals_one (bool b) = b
equals_one (int (pos n)) = nat_beq n 1
equals_one (real is_one) = is_one
equals_one _ = false

-- `validate_telegram_user_id` of any value
unfoldable pub validate_user_value : Json → Result ℕ
unfolding validate_telegram_user_id
validate_user_value (int z) = validate_telegram_user_id z
validate_user_value _ = err validation_error
