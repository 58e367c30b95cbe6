-- ===== src/Bot/Codes.antt =====
-- The codes of backend/src/app/bot_transport/presentation.py, each enumeration with its `.value`.
use startprojectformillion.Base.{String, Bool, Option}

pub data TransportResponseCategory : Type 0 where
  success error guidance : TransportResponseCategory

pub data TransportBootstrapCode : Type 0 where
  identity_ready : TransportBootstrapCode

pub data TransportStatusCode : Type 0 where
  needs_onboarding inactive_or_not_eligible needs_review : TransportStatusCode
  subscription_expired subscription_active : TransportStatusCode
  subscription_active_access_not_ready : TransportStatusCode
  subscription_active_access_ready : TransportStatusCode

pub data TransportErrorCode : Type 0 where
  invalid_input try_again_later service_unavailable : TransportErrorCode
  telegram_command_rate_limited : TransportErrorCode

pub data TransportHelpCode : Type 0 where
  slice1_help : TransportHelpCode

pub data TransportStorefrontCode : Type 0 where
  store_menu store_plans store_buy store_success : TransportStorefrontCode
  store_success_active store_renew : TransportStorefrontCode

pub data TransportSupportCode : Type 0 where
  support_menu support_contact : TransportSupportCode

pub data TransportAccessResendCode : Type 0 where
  not_enabled resend_accepted not_eligible cooldown : TransportAccessResendCode
  not_ready temporarily_unavailable : TransportAccessResendCode

pub data TransportNextActionHint : Type 0 where
  complete_bootstrap : TransportNextActionHint

abbrev pub bootstrap_code : TransportBootstrapCode → String
bootstrap_code TransportBootstrapCode.identity_ready = "identity_ready"

abbrev pub status_code : TransportStatusCode → String
status_code TransportStatusCode.needs_onboarding = "needs_onboarding"
status_code TransportStatusCode.inactive_or_not_eligible = "inactive_or_not_eligible"
status_code TransportStatusCode.needs_review = "needs_review"
status_code TransportStatusCode.subscription_expired = "subscription_expired"
status_code TransportStatusCode.subscription_active = "subscription_active"
status_code TransportStatusCode.subscription_active_access_not_ready =
    "subscription_active_access_not_ready"
status_code TransportStatusCode.subscription_active_access_ready =
    "subscription_active_access_ready"

abbrev pub error_code : TransportErrorCode → String
error_code TransportErrorCode.invalid_input = "invalid_input"
error_code TransportErrorCode.try_again_later = "try_again_later"
error_code TransportErrorCode.service_unavailable = "service_unavailable"
error_code TransportErrorCode.telegram_command_rate_limited = "telegram_command_rate_limited"

abbrev pub help_code : TransportHelpCode → String
help_code TransportHelpCode.slice1_help = "slice1_help"

abbrev pub storefront_code : TransportStorefrontCode → String
storefront_code TransportStorefrontCode.store_menu = "store_menu"
storefront_code TransportStorefrontCode.store_plans = "store_plans"
storefront_code TransportStorefrontCode.store_buy = "store_buy"
storefront_code TransportStorefrontCode.store_success = "store_success"
storefront_code TransportStorefrontCode.store_success_active = "store_success_active"
storefront_code TransportStorefrontCode.store_renew = "store_renew"

abbrev pub support_code : TransportSupportCode → String
support_code TransportSupportCode.support_menu = "support_menu"
support_code TransportSupportCode.support_contact = "support_contact"

abbrev pub resend_code : TransportAccessResendCode → String
resend_code TransportAccessResendCode.not_enabled = "resend_access_not_enabled"
resend_code TransportAccessResendCode.resend_accepted = "resend_access_accepted"
resend_code TransportAccessResendCode.not_eligible = "resend_access_not_eligible"
resend_code TransportAccessResendCode.cooldown = "resend_access_cooldown"
resend_code TransportAccessResendCode.not_ready = "resend_access_not_ready"
resend_code TransportAccessResendCode.temporarily_unavailable =
    "resend_access_temporarily_unavailable"

abbrev pub next_action_hint_value : TransportNextActionHint → String
next_action_hint_value TransportNextActionHint.complete_bootstrap = "complete_bootstrap"

pub record TransportSafeResponse : Type 0 where
  pub category : TransportResponseCategory
  pub code : String
  pub correlation_id : String
  pub next_action_hint : Option String
  pub replay_suppresses_outbound : Bool
  pub uc01_idempotency_key : Option String
  pub active_until_ymd : Option String
  pub subscription_active_recovery_followup : Bool
