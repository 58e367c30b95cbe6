-- ===== src/Bot/Outbound/Known.antt =====
-- Each response of the presentation has a plan of its own.
use startprojectformillion.Base.{ℕ, String, Bool, Option, map_option, ◌≡◌, refl, arith, true, false}
use startprojectformillion.Shared.{OperationOutcomeCategory, SafeUserStatusCategory}
use startprojectformillion.Handlers.Bootstrap.{BootstrapIdentityResult}
use startprojectformillion.Handlers.Status.{GetSubscriptionStatusResult}
use startprojectformillion.Handlers.Resend.{TelegramAccessResendResult}
use startprojectformillion.Bot.Dispatcher.{status_response}
use startprojectformillion.Bot.Codes.{
  TransportResponseCategory, TransportErrorCode, TransportStorefrontCode, TransportSupportCode,
  TransportAccessResendCode, TransportSafeResponse, error_code, resend_code,
}
use startprojectformillion.Bot.Presentation.{
  identity_response, shown_response, onboarding_response, plain_response, transport_error,
  error_code_from_user_safe, status_code_for_safe_category, map_bootstrap_identity_to_transport,
  map_slice1_help_to_transport, map_slice1_storefront_to_transport, map_slice1_support_to_transport,
  map_get_subscription_status_to_transport, map_access_resend_to_transport, access_resend_code,
}
use startprojectformillion.Bot.Outbound.{
  OutboundPlanCategory, map_transport_safe_to_outbound_plan, success_outbound, guidance_outbound,
  error_outbound,
}

abbrev plan_category : TransportResponseCategory → OutboundPlanCategory
plan_category TransportResponseCategory.success = OutboundPlanCategory.success
plan_category TransportResponseCategory.guidance = OutboundPlanCategory.guidance
plan_category TransportResponseCategory.error = OutboundPlanCategory.error

-- The plan shows the response's own code, in its category, under its identifier.
unfoldable pub IsKnown : TransportSafeResponse → Type 0
unfolding map_transport_safe_to_outbound_plan plan_category
IsKnown response =
    let plan = map_transport_safe_to_outbound_plan response in
    (plan.message_key ≡ response.code)
    × (plan.correlation_id ≡ response.correlation_id)
    × (plan.category ≡ plan_category response.category)

pub error-IsKnown :
    (code : TransportErrorCode) (cid : String)
    → IsKnown (plain_response TransportResponseCategory.error (error_code code) cid)
unfolding IsKnown error_outbound
error-IsKnown TransportErrorCode.invalid_input cid = (refl, refl, refl)
error-IsKnown TransportErrorCode.try_again_later cid = (refl, refl, refl)
error-IsKnown TransportErrorCode.service_unavailable cid = (refl, refl, refl)
error-IsKnown TransportErrorCode.telegram_command_rate_limited cid = (refl, refl, refl)

pub help-IsKnown : (cid : String) → IsKnown (map_slice1_help_to_transport cid)
unfolding IsKnown success_outbound map_slice1_help_to_transport
help-IsKnown cid = (refl, refl, refl)

pub storefront-IsKnown :
    (code : TransportStorefrontCode) (cid : String)
    → IsKnown (map_slice1_storefront_to_transport code cid)
unfolding IsKnown success_outbound map_slice1_storefront_to_transport
storefront-IsKnown TransportStorefrontCode.store_menu cid = (refl, refl, refl)
storefront-IsKnown TransportStorefrontCode.store_plans cid = (refl, refl, refl)
storefront-IsKnown TransportStorefrontCode.store_buy cid = (refl, refl, refl)
storefront-IsKnown TransportStorefrontCode.store_success cid = (refl, refl, refl)
storefront-IsKnown TransportStorefrontCode.store_success_active cid = (refl, refl, refl)
storefront-IsKnown TransportStorefrontCode.store_renew cid = (refl, refl, refl)

pub support-IsKnown :
    (code : TransportSupportCode) (cid : String)
    → IsKnown (map_slice1_support_to_transport code cid)
unfolding IsKnown success_outbound map_slice1_support_to_transport
support-IsKnown TransportSupportCode.support_menu cid = (refl, refl, refl)
support-IsKnown TransportSupportCode.support_contact cid = (refl, refl, refl)

resend_code-IsKnown :
    (code : TransportAccessResendCode) (cid : String)
    → IsKnown (plain_response TransportResponseCategory.success (resend_code code) cid)
unfolding IsKnown success_outbound
resend_code-IsKnown TransportAccessResendCode.not_enabled cid = (refl, refl, refl)
resend_code-IsKnown TransportAccessResendCode.resend_accepted cid = (refl, refl, refl)
resend_code-IsKnown TransportAccessResendCode.not_eligible cid = (refl, refl, refl)
resend_code-IsKnown TransportAccessResendCode.cooldown cid = (refl, refl, refl)
resend_code-IsKnown TransportAccessResendCode.not_ready cid = (refl, refl, refl)
resend_code-IsKnown TransportAccessResendCode.temporarily_unavailable cid = (refl, refl, refl)

pub resend-IsKnown :
    (result : TelegramAccessResendResult) → IsKnown (map_access_resend_to_transport result)
unfolding map_access_resend_to_transport
resend-IsKnown result =
    resend_code-IsKnown (access_resend_code result.outcome) result.correlation_id

identity-IsKnown :
    (replay : Bool) (idem_key : Option String) (cid : String)
    → IsKnown (identity_response replay idem_key cid)
unfolding IsKnown success_outbound
identity-IsKnown replay idem_key cid = (refl, refl, refl)

pub bootstrap-IsKnown :
    (result : BootstrapIdentityResult) → IsKnown (map_bootstrap_identity_to_transport result)
unfolding map_bootstrap_identity_to_transport transport_error
bootstrap-IsKnown result = ground (
  arith,
  identity-IsKnown result.idempotent_replay result.uc01_idempotency_key result.correlation_id,
  error-IsKnown (error_code_from_user_safe result.user_safe) result.correlation_id,
)

-- A success never has this status.
abbrev pub IsBootstrapped : SafeUserStatusCategory → Type 0
IsBootstrapped SafeUserStatusCategory.needs_bootstrap = ⊥
IsBootstrapped _ = Unit

status_code-IsKnown :
    (safe : SafeUserStatusCategory) (until : Option String) (flag : Bool) (cid : String)
    → IsBootstrapped safe
    → IsKnown (shown_response (status_code_for_safe_category safe) until flag cid)
unfolding IsKnown success_outbound status_code_for_safe_category
status_code-IsKnown SafeUserStatusCategory.needs_bootstrap until flag cid h = elim h [ ]
status_code-IsKnown SafeUserStatusCategory.needs_review until flag cid h = (refl, refl, refl)
status_code-IsKnown SafeUserStatusCategory.subscription_expired until flag cid h =
    (refl, refl, refl)
status_code-IsKnown SafeUserStatusCategory.subscription_active_access_not_ready until flag cid h =
    (refl, refl, refl)
status_code-IsKnown SafeUserStatusCategory.subscription_active_access_ready until flag cid h =
    (refl, refl, refl)
status_code-IsKnown SafeUserStatusCategory.subscription_active until flag cid h = (refl, refl, refl)
status_code-IsKnown SafeUserStatusCategory.inactive_or_not_eligible until flag cid h =
    (refl, refl, refl)

onboarding-IsKnown : (cid : String) → IsKnown (onboarding_response cid)
unfolding IsKnown guidance_outbound
onboarding-IsKnown cid = (refl, refl, refl)

pub status-IsKnown :
    (date_text : ℕ → String) (now : ℕ) (result : GetSubscriptionStatusResult)
    → (result.outcome ≡ OperationOutcomeCategory.success → IsBootstrapped result.safe_status)
    → IsKnown (status_response date_text now result)
unfolding status_response map_get_subscription_status_to_transport transport_error
status-IsKnown date_text now result h =
    let ymd = map_option date_text result.active_until_utc in
    ground (
      arith,
      h,
      status_code-IsKnown result.safe_status ymd true result.correlation_id,
      status_code-IsKnown result.safe_status ymd false result.correlation_id,
      onboarding-IsKnown result.correlation_id,
      error-IsKnown (error_code_from_user_safe result.user_safe) result.correlation_id,
    )
