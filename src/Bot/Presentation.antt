-- ===== src/Bot/Presentation.antt =====
-- The mapping of handler results to transport responses
-- (backend/src/app/bot_transport/presentation.py).
use startprojectformillion.Base.{ℕ, String, Bool, false, Option, none, some, map_option}
use startprojectformillion.Shared.{
  OperationOutcomeCategory, SafeUserStatusCategory, UserSafeErrorCode,
}
use startprojectformillion.Handlers.Bootstrap.{BootstrapIdentityResult}
use startprojectformillion.Handlers.Status.{GetSubscriptionStatusResult}
use startprojectformillion.Handlers.Resend.{TelegramAccessResendOutcome, TelegramAccessResendResult}
use startprojectformillion.Bot.Codes.{
  TransportResponseCategory, TransportBootstrapCode, TransportStatusCode, TransportErrorCode,
  TransportHelpCode, TransportStorefrontCode, TransportSupportCode, TransportAccessResendCode,
  TransportNextActionHint, TransportSafeResponse, bootstrap_code, status_code, error_code,
  help_code, storefront_code, support_code, resend_code, next_action_hint_value,
}

-- The record with its defaults.
abbrev pub plain_response : TransportResponseCategory → String → String → TransportSafeResponse
plain_response category code cid = record {
  category = category;
  code = code;
  correlation_id = cid;
  next_action_hint = none;
  replay_suppresses_outbound = false;
  uc01_idempotency_key = none;
  active_until_ymd = none;
  subscription_active_recovery_followup = false;
}

-- The response of `/start`.
abbrev pub identity_response : Bool → Option String → String → TransportSafeResponse
identity_response replay idem_key cid =
    record (plain_response TransportResponseCategory.success
      (bootstrap_code TransportBootstrapCode.identity_ready) cid) {
        replay_suppresses_outbound = replay;
        uc01_idempotency_key = idem_key;
      }

-- The response of `/status` for a user that is found.
abbrev pub shown_response :
    TransportStatusCode → Option String → Bool → String → TransportSafeResponse
shown_response code active_until_ymd followup cid =
    record (plain_response TransportResponseCategory.success (status_code code) cid) {
      active_until_ymd = active_until_ymd;
      subscription_active_recovery_followup = followup;
    }

-- The response of `/status` for a user that is not registered.
abbrev pub onboarding_response : String → TransportSafeResponse
onboarding_response cid =
    record (plain_response TransportResponseCategory.guidance
      (status_code TransportStatusCode.needs_onboarding) cid) {
        next_action_hint = some (next_action_hint_value TransportNextActionHint.complete_bootstrap);
      }

unfoldable pub error_code_from_user_safe : Option UserSafeErrorCode → TransportErrorCode
error_code_from_user_safe none = TransportErrorCode.service_unavailable
error_code_from_user_safe (some UserSafeErrorCode.invalid_input) = TransportErrorCode.invalid_input
error_code_from_user_safe (some UserSafeErrorCode.try_again_later) =
    TransportErrorCode.try_again_later
error_code_from_user_safe (some UserSafeErrorCode.not_registered) = TransportErrorCode.invalid_input
error_code_from_user_safe (some UserSafeErrorCode.service_unavailable) =
    TransportErrorCode.service_unavailable

unfoldable pub transport_error :
    TransportResponseCategory → Option UserSafeErrorCode → String → TransportSafeResponse
unfolding error_code_from_user_safe
transport_error category user_safe cid =
    plain_response category (error_code (error_code_from_user_safe user_safe)) cid

unfoldable pub status_code_for_safe_category : SafeUserStatusCategory → TransportStatusCode
status_code_for_safe_category SafeUserStatusCategory.needs_bootstrap =
    TransportStatusCode.needs_onboarding
status_code_for_safe_category SafeUserStatusCategory.needs_review = TransportStatusCode.needs_review
status_code_for_safe_category SafeUserStatusCategory.subscription_expired =
    TransportStatusCode.subscription_expired
status_code_for_safe_category SafeUserStatusCategory.subscription_active_access_not_ready =
    TransportStatusCode.subscription_active_access_not_ready
status_code_for_safe_category SafeUserStatusCategory.subscription_active_access_ready =
    TransportStatusCode.subscription_active_access_ready
status_code_for_safe_category SafeUserStatusCategory.subscription_active =
    TransportStatusCode.subscription_active
status_code_for_safe_category SafeUserStatusCategory.inactive_or_not_eligible =
    TransportStatusCode.inactive_or_not_eligible

unfoldable pub map_bootstrap_identity_to_transport : BootstrapIdentityResult → TransportSafeResponse
unfolding transport_error
map_bootstrap_identity_to_transport result = elim result.outcome [
  | OperationOutcomeCategory.success ↦
      identity_response result.idempotent_replay result.uc01_idempotency_key result.correlation_id
  | _ ↦ transport_error TransportResponseCategory.error result.user_safe result.correlation_id
]

unfoldable pub map_slice1_help_to_transport : String → TransportSafeResponse
map_slice1_help_to_transport cid =
    plain_response TransportResponseCategory.success (help_code TransportHelpCode.slice1_help) cid

unfoldable pub map_slice1_storefront_to_transport :
    TransportStorefrontCode → String → TransportSafeResponse
map_slice1_storefront_to_transport code cid =
    plain_response TransportResponseCategory.success (storefront_code code) cid

unfoldable pub map_slice1_support_to_transport :
    TransportSupportCode → String → TransportSafeResponse
map_slice1_support_to_transport code cid =
    plain_response TransportResponseCategory.success (support_code code) cid

-- `date_text` is `.date().isoformat()` of a time.
unfoldable pub map_get_subscription_status_to_transport :
    (ℕ → String) → GetSubscriptionStatusResult → TransportSafeResponse
unfolding status_code_for_safe_category transport_error
map_get_subscription_status_to_transport date_text result = elim result.outcome [
  | OperationOutcomeCategory.success ↦
      shown_response (status_code_for_safe_category result.safe_status)
        (map_option date_text result.active_until_utc) false result.correlation_id
  | OperationOutcomeCategory.not_found ↦ onboarding_response result.correlation_id
  | _ ↦ transport_error TransportResponseCategory.error result.user_safe result.correlation_id
]

unfoldable pub access_resend_code : TelegramAccessResendOutcome → TransportAccessResendCode
access_resend_code TelegramAccessResendOutcome.not_enabled = TransportAccessResendCode.not_enabled
access_resend_code TelegramAccessResendOutcome.resend_accepted =
    TransportAccessResendCode.resend_accepted
access_resend_code TelegramAccessResendOutcome.not_eligible = TransportAccessResendCode.not_eligible
access_resend_code TelegramAccessResendOutcome.cooldown = TransportAccessResendCode.cooldown
access_resend_code TelegramAccessResendOutcome.not_ready = TransportAccessResendCode.not_ready
access_resend_code TelegramAccessResendOutcome.temporarily_unavailable =
    TransportAccessResendCode.temporarily_unavailable

unfoldable pub map_access_resend_to_transport : TelegramAccessResendResult → TransportSafeResponse
unfolding access_resend_code
map_access_resend_to_transport result =
    plain_response TransportResponseCategory.success
      (resend_code (access_resend_code result.outcome)) result.correlation_id
