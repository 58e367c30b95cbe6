-- ===== src/Billing/Fulfillment/Settings.antt =====
-- `load_fulfillment_ingress_settings_from_env`
-- (backend/src/app/runtime/payment_fulfillment_ingress.py). The environment and Python's `int` of a
-- text are parameters; a `ConfigurationError` is `other_exception`.
pub mod Bounds
use Prim.Native.Nat.{zero, suc}
use startprojectformillion.Base.{
  ℕ, String, Bool, true, false, ◌&&◌, ◌||◌, not, Option, none, some, ltb, leb, if◌then◌else◌,
  str_eq, no_text, strip, lower,
}
use startprojectformillion.Shared.{
  Result, Exception, ok, err, validation_error, other_exception, ◌>>=◌, ◌>>◌,
}
use startprojectformillion.Shared.Validation.{ℤ, pos, negsuc}
use startprojectformillion.Shared.Json.{Json, str}
use startprojectformillion.Billing.Facts.{DateTime}
use startprojectformillion.Billing.Fulfillment.Payload.{Digit, parse_period_text}
use startprojectformillion.Billing.Fulfillment.Identity.{FulfillmentIngressSettings}

unfoldable pub truthy : Option String → Bool
unfolding strip lower
truthy none = false
truthy (some raw) = let s = lower (strip raw) in str_eq s "1" || (str_eq s "true" || str_eq s "yes")

abbrev pub or_default : String → Option String → String
or_default default none = default
or_default default (some s) = s

-- `or None`
abbrev pub none_if_empty : String → Option String
none_if_empty s = if no_text s then none else some s

abbrev pub require : Bool → Result Unit
require true = ok tt
require false = err other_exception

-- `except ValueError`
abbrev pub number : Option ℤ → Result ℤ
number none = err other_exception
number (some z) = ok z

-- A number from 1 to 3600.
abbrev pub checked_max_age : ℤ → Result ℕ
checked_max_age (pos (suc n)) = if ltb 3600 (suc n) then err other_exception else ok (suc n)
checked_max_age _ = err other_exception

abbrev pub is_positive : ℤ → Bool
is_positive (pos (suc n)) = true
is_positive _ = false

-- From ten minutes to thirty days.
abbrev pub strict_age : ℤ → Bool
strict_age (pos n) = not (ltb n 600 || ltb 2592000 n)
strict_age (negsuc n) = false

abbrev pub has_value : Option String → Bool
has_value none = false
has_value (some s) = not (no_text s)

-- `except ValidationError`
abbrev pub as_configuration : Result ℕ → Result (Option ℕ)
as_configuration (ok n) = ok (some n)
as_configuration (err validation_error) = err other_exception
as_configuration (err e) = err e

-- The checks of the values, in the order of the source.
unfoldable pub checked_settings :
    String
    → String
    → Result ℤ
    → Option String
    → Result ℤ
    → Bool
    → Result (Option ℕ)
    → Result FulfillmentIngressSettings
checked_settings secret provider_key age reference_secret reference strict default_days = do
  require (not (no_text secret))
  require (not (no_text provider_key))
  max_age_raw ← age
  max_age ← checked_max_age max_age_raw
  reference_age ← reference
  require (is_positive reference_age)
  require (not (strict && not (has_value reference_secret)))
  require (not (strict && not (strict_age reference_age)))
  period ← default_days
  ok (record {
    secret = secret;
    provider_key = provider_key;
    max_age_seconds = max_age;
    checkout_reference_secret = reference_secret;
    checkout_reference_max_age_seconds = reference_age;
    strict_checkout_reference_required = strict;
    default_subscription_period_days = period;
  })

module _ (unicode_digit : ℕ → Digit) (fromisoformat : String → Option DateTime)
    (int_of_text : String → Option ℤ) (env : String → Option String) where
  abbrev pub default_period : String → Result (Option ℕ)
  default_period raw =
      if no_text raw
      then ok none
      else as_configuration (parse_period_text unicode_digit fromisoformat raw)

  unfoldable pub load_settings : Result FulfillmentIngressSettings
  unfolding strip truthy parse_period_text checked_settings
  load_settings =
      checked_settings (strip (or_default "" (env "PAYMENT_FULFILLMENT_WEBHOOK_SECRET")))
        (strip (or_default "provider_agnostic_v1" (env "PAYMENT_FULFILLMENT_PROVIDER_KEY")))
        (number
          (int_of_text (strip (or_default "300" (env "PAYMENT_FULFILLMENT_MAX_AGE_SECONDS")))))
        (none_if_empty (strip (or_default "" (env "TELEGRAM_CHECKOUT_REFERENCE_SECRET"))))
        (number (
          int_of_text
            (strip (or_default "604800" (env "TELEGRAM_CHECKOUT_REFERENCE_MAX_AGE_SECONDS")))))
        (truthy (env "LAUNCH_PREFLIGHT_STRICT"))
        (default_period (strip (or_default "" (env "SUBSCRIPTION_DEFAULT_PERIOD_DAYS"))))

  -- `None` where the ingress is not enabled.
  unfoldable pub load_fulfillment_ingress_settings_from_env :
      Result (Option FulfillmentIngressSettings)
  unfolding load_settings truthy
  load_fulfillment_ingress_settings_from_env =
      if truthy (env "PAYMENT_FULFILLMENT_HTTP_ENABLE")
      then load_settings >>= (λ settings. ok (some settings))
      else ok none
