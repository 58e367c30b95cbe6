-- ===== src/Billing/Fulfillment/Settings/Bounds.antt =====
-- What holds of settings that were loaded.
use startprojectformillion.Base.{
  ℕ, ◌≤◌, ◌<◌, String, Bool, true, false, Option, none, some, ◌≡◌, refl, sym, arith, no_text, strip,
  inl, inr, ◌⊎◌,
}
use startprojectformillion.Shared.{Result, ok, Result-cases}
use startprojectformillion.Shared.Validation.{ℤ, pos}
use startprojectformillion.Billing.Facts.{DateTime}
use startprojectformillion.Billing.Fulfillment.Payload.{
  Digit, parse_period_text, int_of, max_subscription_period_days,
}
use startprojectformillion.Billing.Fulfillment.Identity.{FulfillmentIngressSettings}
use startprojectformillion.Billing.Fulfillment.Settings.{
  checked_settings, load_settings, load_fulfillment_ingress_settings_from_env, default_period,
  number, or_default, none_if_empty, truthy, is_positive, strict_age, has_value,
}

-- A period that is none or from 1 to 3660 days.
abbrev pub IsPeriod : Option ℕ → Type 0
IsPeriod none = Unit
IsPeriod (some days) = (0 < days) × (days ≤ max_subscription_period_days)

-- Settings with which a strict ingress can check references.
abbrev pub IsSound : FulfillmentIngressSettings → Type 0
IsSound settings =
    (no_text settings.secret ≡ false)
    × (no_text settings.provider_key ≡ false)
    × (0 < settings.max_age_seconds)
    × (settings.max_age_seconds ≤ 3600)
    × (is_positive settings.checkout_reference_max_age_seconds ≡ true)
    × ((settings.strict_checkout_reference_required ≡ false)
        ⊎ ((has_value settings.checkout_reference_secret ≡ true)
            × (strict_age settings.checkout_reference_max_age_seconds ≡ true)))
    × IsPeriod settings.default_subscription_period_days

checked_settings-IsSound :
    (secret provider_key : String) (age : Result ℤ) (reference_secret : Option String)
    (reference : Result ℤ) (strict : Bool) (default_days : Result (Option ℕ))
    (settings : FulfillmentIngressSettings)
    → ((period : Option ℕ) → default_days ≡ ok period → IsPeriod period)
    → checked_settings secret provider_key age reference_secret reference strict default_days
      ≡ ok settings
    → IsSound settings
unfolding checked_settings
checked_settings-IsSound secret provider_key (ok (pos (ℕ.suc n))) reference_secret (ok z) strict
      (ok period) settings periods h =
    let same : settings.default_subscription_period_days ≡ period = ground (arith, h) in
    (
      ground (arith, h),
      ground (arith, h),
      ground (arith, h),
      ground (arith, h),
      ground (arith, h),
      ground (arith, h),
      rw same (periods period refl),
    )
checked_settings-IsSound secret provider_key age reference_secret reference strict default_days
      settings periods h =
    let never : ⊥ = ground (arith, h) in elim never [ ]

module _ (unicode_digit : ℕ → Digit) (fromisoformat : String → Option DateTime)
    (int_of_text : String → Option ℤ) (env : String → Option String) where
  parse_period_text-IsPeriod :
      (raw : String) (days : ℕ)
      → parse_period_text unicode_digit fromisoformat raw ≡ ok days
      → IsPeriod (some days)
  unfolding parse_period_text
  parse_period_text-IsPeriod raw days h =
      elim (Result-cases (int_of unicode_digit fromisoformat 0 (strip raw))) [
        | inl (e, bad) ↦ ground (arith, h, bad)
        | inr (n, read) ↦ ground (arith, h, read)
      ]

  default_period-IsPeriod :
      (raw : String) (period : Option ℕ)
      → default_period unicode_digit fromisoformat int_of_text env raw ≡ ok period
      → IsPeriod period
  default_period-IsPeriod raw none h = tt
  default_period-IsPeriod raw (some days) h =
      elim (Result-cases (parse_period_text unicode_digit fromisoformat raw)) [
        | inl (e, bad) ↦ ground (arith, h, bad)
        | inr (n, read) ↦ ground (arith, h, read, parse_period_text-IsPeriod raw n read)
      ]

  load_settings-IsSound :
      (settings : FulfillmentIngressSettings)
      → load_settings unicode_digit fromisoformat int_of_text env ≡ ok settings
      → IsSound settings
  unfolding load_settings
  load_settings-IsSound settings h =
      checked_settings-IsSound (strip (or_default "" (env "PAYMENT_FULFILLMENT_WEBHOOK_SECRET")))
        (strip (or_default "provider_agnostic_v1" (env "PAYMENT_FULFILLMENT_PROVIDER_KEY")))
        (number
          (int_of_text (strip (or_default "300" (env "PAYMENT_FULFILLMENT_MAX_AGE_SECONDS")))))
        (none_if_empty (strip (or_default "" (env "TELEGRAM_CHECKOUT_REFERENCE_SECRET"))))
        (number (
          int_of_text
            (strip (or_default "604800" (env "TELEGRAM_CHECKOUT_REFERENCE_MAX_AGE_SECONDS")))))
        (truthy (env "LAUNCH_PREFLIGHT_STRICT"))
        (default_period unicode_digit fromisoformat int_of_text env
          (strip (or_default "" (env "SUBSCRIPTION_DEFAULT_PERIOD_DAYS"))))
        settings
        (default_period-IsPeriod (strip (or_default "" (env "SUBSCRIPTION_DEFAULT_PERIOD_DAYS")))) h

  -- Settings that are loaded from an environment, whatever it holds, are sound: the secret and the
  -- provider key are not empty, a request may be at most from one second to an hour old, the age of
  -- references is positive, a strict ingress has a secret for references and an age for them from
  -- ten minutes to thirty days, and a default period is from 1 to 3660 days.
  pub loaded-IsSound :
      (settings : FulfillmentIngressSettings)
      → load_fulfillment_ingress_settings_from_env unicode_digit fromisoformat int_of_text env
        ≡ ok (some settings)
      → IsSound settings
  unfolding load_fulfillment_ingress_settings_from_env
  loaded-IsSound settings h =
      elim (Result-cases (load_settings unicode_digit fromisoformat int_of_text env)) [
        | inl (e, bad) ↦ let never : ⊥ = ground (arith, h, bad) in elim never [ ]
        | inr (loaded, fine) ↦
            let same : loaded ≡ settings = ground (arith, h, fine) in
            rw (sym same) (load_settings-IsSound loaded fine)
      ]
