-- ===== src/Billing/Fulfillment/Payload.antt =====
-- `_parse_event_payload` (backend/src/app/runtime/payment_fulfillment_ingress.py). What `isdigit` and
-- `int` say of a character beyond ASCII, and `fromisoformat`, are parameters.
use Prim.Native.Char.{code}
use Prim.Native.String.{count}
use startprojectformillion.Base.{
  ℕ, ◌+◌, ◌-◌, ◌*◌, String, Bool, true, false, ◌&&◌, ◌||◌, not, Option, none, some, ltb, leb,
  nat_beq, if◌then◌else◌, str_eq, no_text, strip, is_digit,
}
use startprojectformillion.Shared.{Result, ok, err, validation_error, value_error, ◌>>=◌, ◌>>◌}
use startprojectformillion.Shared.Validation.{pos}
use startprojectformillion.Shared.Json.{
  Json, Fields, nil, field, null, bool, int, real, str, array, object, get, equals_one,
  validate_user_value,
}
use startprojectformillion.Billing.Facts.{Moment, DateTime, naive, aware}
use startprojectformillion.Billing.Reference.{with_offset, guard, parsed, optional_text, fields_of}
use startprojectformillion.Billing.Ingest.{require_non_empty_trimmed}

pub record FulfillmentEventPayload : Type 0 where
  pub external_event_id : String
  pub external_payment_id : String
  pub telegram_user_id : Option ℕ
  pub client_reference_id : Option String
  pub client_reference_proof : Option String
  pub period_days : Option ℕ
  pub paid_at : Moment

abbrev pub max_subscription_period_days : ℕ
max_subscription_period_days = 3660

-- `_require_non_empty_str`
abbrev pub require_non_empty_str : Fields → String → ℕ → Result String
require_non_empty_str fields key max_len = elim (get key fields) [
  | str value ↦ require_non_empty_trimmed value max_len
  | null ↦ err validation_error
  | bool b ↦ err validation_error
  | int z ↦ err validation_error
  | real b ↦ err validation_error
  | array ↦ err validation_error
  | object fs ↦ err validation_error
]

-- `isdigit`, and the value where the character is a decimal digit.
pub data Digit : Type 0 where
  no_digit no_decimal : Digit
  decimal : ℕ → Digit

abbrev pub in_range : ℕ → Result ℕ
in_range n =
    if nat_beq n 0
    then err validation_error
    else if ltb max_subscription_period_days n
    then err validation_error
    else ok n

-- `key in _ALLOWED_FIELDS`
unfoldable pub is_allowed : String → Bool
is_allowed key =
    str_eq key "schema_version"
    || (str_eq key "external_event_id"
        || (str_eq key "external_payment_id"
            || (str_eq key "telegram_user_id"
                || (str_eq key "client_reference_id"
                    || (str_eq key "client_reference_proof"
                        || (str_eq key "metadata"
                            || (str_eq key "period_days" || str_eq key "paid_at")))))))

unfoldable pub only_allowed : Fields → Bool
unfolding is_allowed
only_allowed nil = true
only_allowed (field key value rest) = is_allowed key && only_allowed rest

abbrev pub optional_user : Json → Result (Option ℕ)
optional_user null = ok none
optional_user (bool b) = err validation_error
optional_user (int z) = validate_user_value (int z) >>= λ uid. ok (some uid)
optional_user (real b) = err validation_error
optional_user (str s) = err validation_error
optional_user array = err validation_error
optional_user (object fs) = err validation_error

-- `metadata`: an object or nothing, and the text that it has under a key.
abbrev pub metadata_of : Json → Result Fields
metadata_of null = ok nil
metadata_of (object fields) = ok fields
metadata_of _ = err validation_error

abbrev pub text_of : Json → Option String
text_of (str s) = some s
text_of _ = none

abbrev pub or_else : Option String → Option String → Option String
or_else none other = other
or_else (some s) other = some s

unfoldable pub stripped : Option String → Option String
unfolding strip
stripped none = none
stripped (some s) = some (strip s)

module _ (unicode_digit : ℕ → Digit) (fromisoformat : String → Option DateTime) where
  abbrev pub digit_of : ℕ → Digit
  digit_of c =
      if is_digit c then decimal (c - b'0') else if leb c 127 then no_digit else unicode_digit c

  -- `s.isdigit()` of a text that is not empty
  unfoldable pub all_digits : String → Bool
  all_digits String.[] = true
  all_digits (String.◌∷◌ c s) =
      let rest = all_digits s in
      elim (digit_of (code c)) [ no_digit ↦ false | no_decimal ↦ rest | decimal d ↦ rest ]

  -- `int(s)` where `s.isdigit()`: a ValueError where a digit is no decimal one.
  unfoldable pub int_of : ℕ → String → Result ℕ
  int_of n String.[] = ok n
  int_of n (String.◌∷◌ c s) = elim (digit_of (code c)) [
    | no_digit ↦ err value_error
    | no_decimal ↦ err value_error
    | decimal d ↦ int_of (n * 10 + d) s
  ]

  unfoldable pub parse_period_text : String → Result ℕ
  unfolding strip all_digits int_of
  parse_period_text value =
      let s = strip value in
      if no_text s
      then err validation_error
      else if all_digits s
      then (if ltb 4300 (count s) then err value_error else int_of 0 s >>= in_range)
      else err validation_error

  unfoldable pub parse_period_days : Json → Result ℕ
  unfolding parse_period_text
  parse_period_days (int (pos n)) = in_range n
  parse_period_days (str s) = parse_period_text s
  parse_period_days _ = err validation_error

  abbrev pub optional_period : Json → Result (Option ℕ)
  optional_period null = ok none
  optional_period value = parse_period_days value >>= λ n. ok (some n)

  abbrev pub aware_only : DateTime → Result Moment
  aware_only (naive wall) = err validation_error
  aware_only (aware t) = ok t

  unfoldable pub parse_iso_timestamp : Json → Result Moment
  unfolding strip with_offset
  parse_iso_timestamp (str value) = do
    let s = strip value
    guard (not (no_text s))
    at ← parsed (fromisoformat (with_offset s))
    aware_only at
  parse_iso_timestamp _ = err validation_error

  -- Of what `json.loads` gives.
  unfoldable pub parse_event_payload : Json → Result FulfillmentEventPayload
  unfolding get only_allowed require_non_empty_trimmed validate_user_value parse_period_days
      parse_iso_timestamp stripped
  parse_event_payload payload = do
    fields ← fields_of payload
    guard (only_allowed fields)
    guard (equals_one (get "schema_version" fields))
    event ← require_non_empty_str fields "external_event_id" 256
    payment ← require_non_empty_str fields "external_payment_id" 256
    user ← optional_user (get "telegram_user_id" fields)
    id ← optional_text (get "client_reference_id" fields)
    proof ← optional_text (get "client_reference_proof" fields)
    metadata ← metadata_of (get "metadata" fields)
    period ← optional_period (get "period_days" fields)
    paid ← parse_iso_timestamp (get "paid_at" fields)
    ok (record {
      external_event_id = event;
      external_payment_id = payment;
      telegram_user_id = user;
      client_reference_id = stripped (or_else id (text_of (get "client_reference_id" metadata)));
      client_reference_proof =
          stripped (or_else proof (text_of (get "client_reference_proof" metadata)));
      period_days = period;
      paid_at = paid;
    })
