-- ===== src/Bot/Dispatcher.antt =====
-- backend/src/app/bot_transport/dispatcher.py, with the decision event of
-- backend/src/app/application/telegram_command_rate_limit_telemetry.py. The parts of
-- `Slice1Composition` are calls on the surroundings `E`; what the clock shows is an argument.
pub mod Limits
pub mod Answers
use startprojectformillion.Base.{
  ℕ, String, Bool, true, false, not, ◌&&◌, Option, none, some, is_some, ltb, if◌then◌else◌,
}
use startprojectformillion.Shared.{Exec, ok, err, OperationOutcomeCategory, SafeUserStatusCategory}
use startprojectformillion.Shared.Validation.{ℤ}
use startprojectformillion.Handlers.Bootstrap.{BootstrapIdentityInput, BootstrapIdentityResult}
use startprojectformillion.Handlers.Status.{GetSubscriptionStatusInput, GetSubscriptionStatusResult}
use startprojectformillion.Handlers.Resend.{TelegramAccessResendInput, TelegramAccessResendResult}
use startprojectformillion.Transport.RateLimit.{TelegramCommandRateLimitKey}
use startprojectformillion.Bot.Codes.{
  TransportResponseCategory, TransportErrorCode, TransportStorefrontCode, TransportSupportCode,
  TransportSafeResponse, error_code,
}
use startprojectformillion.Bot.Presentation.{
  plain_response, map_bootstrap_identity_to_transport, map_slice1_help_to_transport,
  map_slice1_storefront_to_transport, map_slice1_support_to_transport,
  map_get_subscription_status_to_transport, map_access_resend_to_transport,
}
use startprojectformillion.Bot.Delivery.{OutboundDeliveryRecord}
use startprojectformillion.Bot.Normalized.{
  TransportIncomingEnvelope, NormalizedSlice1Result, parse_slice1_transport,
}

pub record TelegramCommandRateLimitDecisionEvent : Type 0 where
  pub event_type : String
  pub command_bucket : String
  pub decision : String
  pub limit_window_bucket : String
  pub principal_marker : String
  pub correlation_id : String
  pub update_marker : String

unfoldable pub command_bucket_from_key : TelegramCommandRateLimitKey → String
command_bucket_from_key TelegramCommandRateLimitKey.status = "status"
command_bucket_from_key TelegramCommandRateLimitKey.access_resend = "access_resend"
command_bucket_from_key TelegramCommandRateLimitKey.support = "support"

unfoldable pub window_bucket_from_key : TelegramCommandRateLimitKey → String
window_bucket_from_key TelegramCommandRateLimitKey.status = "status_window"
window_bucket_from_key TelegramCommandRateLimitKey.access_resend = "access_resend_window"
window_bucket_from_key TelegramCommandRateLimitKey.support = "support_window"

-- The members of `Slice1Composition` that the transport calls.
pub record Slice1Composition (E : Type 0) : Type 0 where
  pub bootstrap : BootstrapIdentityInput → Exec E BootstrapIdentityResult
  pub get_status : GetSubscriptionStatusInput → Exec E GetSubscriptionStatusResult
  pub access_resend : TelegramAccessResendInput → Exec E TelegramAccessResendResult
  pub allow : ℤ → TelegramCommandRateLimitKey → Exec E Bool
  pub emit_decision : TelegramCommandRateLimitDecisionEvent → Exec E Unit
  -- `get_status` of the delivery ledger, where there is one
  pub outbound_delivery : Option (String → Exec E (Option OutboundDeliveryRecord))

unfoldable pub normalization_reject_response : TransportIncomingEnvelope → TransportSafeResponse
normalization_reject_response envelope =
    plain_response TransportResponseCategory.error (error_code TransportErrorCode.invalid_input)
      envelope.correlation_id

unfoldable pub rate_limited_response : String → TransportSafeResponse
rate_limited_response cid =
    plain_response TransportResponseCategory.error
      (error_code TransportErrorCode.telegram_command_rate_limited) cid

unfoldable pub update_marker_of : TransportIncomingEnvelope → String
update_marker_of envelope = if is_some envelope.telegram_update_id then "present" else "absent"

-- `status in (SUBSCRIPTION_ACTIVE, …_ACCESS_NOT_READY, …_ACCESS_READY)`
abbrev pub is_active_status : SafeUserStatusCategory → Bool
is_active_status SafeUserStatusCategory.subscription_active = true
is_active_status SafeUserStatusCategory.subscription_active_access_not_ready = true
is_active_status SafeUserStatusCategory.subscription_active_access_ready = true
is_active_status _ = false

abbrev pub is_success : OperationOutcomeCategory → Bool
is_success OperationOutcomeCategory.success = true
is_success _ = false

-- `active_until_utc is not None and active_until_utc > datetime.now(UTC)`
abbrev pub is_ahead : Option ℕ → ℕ → Bool
is_ahead none now = false
is_ahead (some until) now = ltb now until

-- The event of a decision about the envelope's command.
unfoldable pub decision_event :
    TransportIncomingEnvelope
    → TelegramCommandRateLimitKey
    → Bool
    → String
    → TelegramCommandRateLimitDecisionEvent
unfolding command_bucket_from_key window_bucket_from_key update_marker_of
decision_event envelope command_key allowed cid = record {
  event_type = "telegram_command_rate_limit_decision";
  command_bucket = command_bucket_from_key command_key;
  decision = if allowed then "allowed" else "limited";
  limit_window_bucket = window_bucket_from_key command_key;
  principal_marker = "telegram_user_redacted";
  correlation_id = cid;
  update_marker = update_marker_of envelope;
}

-- The status response, with the flag of the second message.
unfoldable pub status_response :
    (ℕ → String) → ℕ → GetSubscriptionStatusResult → TransportSafeResponse
unfolding map_get_subscription_status_to_transport
status_response date_text now result =
    let transport = map_get_subscription_status_to_transport date_text result in
    if is_success result.outcome
      && (is_ahead result.active_until_utc now && is_active_status result.safe_status)
    then record transport { subscription_active_recovery_followup = true }
    else transport

module _ {E : Type 0} (composition : Slice1Composition E) where
  -- `_emit_rate_limit_decision`: an exception of the telemetry is dropped.
  unfoldable pub emit_rate_limit_decision :
      TransportIncomingEnvelope → TelegramCommandRateLimitKey → Bool → String → E → E
  unfolding decision_event
  emit_rate_limit_decision envelope command_key allowed cid env =
      (composition.emit_decision (decision_event envelope command_key allowed cid) env).1

  -- The rate limit of a command: its decision is emitted, then the command runs or is refused.
  unfoldable pub limited :
      TransportIncomingEnvelope
      → TelegramCommandRateLimitKey
      → String
      → Exec E TransportSafeResponse
      → Exec E TransportSafeResponse
  unfolding emit_rate_limit_decision rate_limited_response
  limited envelope command_key cid run env =
      let (allowed, env1) = composition.allow envelope.telegram_user_id command_key env in
      elim allowed [
        | err e ↦ (err e, env1)
        | ok false ↦ (
          ok (rate_limited_response cid),
          emit_rate_limit_decision envelope command_key false cid env1,
        )
        | ok true ↦ run (emit_rate_limit_decision envelope command_key true cid env1)
      ]

  -- `/start`
  unfoldable pub run_bootstrap : BootstrapIdentityInput → Exec E TransportSafeResponse
  unfolding map_bootstrap_identity_to_transport
  run_bootstrap inp env =
      let (result, env1) = composition.bootstrap inp env in
      elim result [
        | err e ↦ (err e, env1)
        | ok r ↦ (ok (map_bootstrap_identity_to_transport r), env1)
      ]

  -- `/status`, behind its limit
  unfoldable pub run_status :
      (ℕ → String) → ℕ → GetSubscriptionStatusInput → Exec E TransportSafeResponse
  unfolding status_response
  run_status date_text now inp env =
      let (result, env1) = composition.get_status inp env in
      elim result [ err e ↦ (err e, env1) | ok r ↦ (ok (status_response date_text now r), env1) ]

  -- `/resend_access`, behind its limit
  unfoldable pub run_resend : TelegramAccessResendInput → Exec E TransportSafeResponse
  unfolding map_access_resend_to_transport
  run_resend inp env =
      let (result, env1) = composition.access_resend inp env in
      elim result [ err e ↦ (err e, env1) | ok r ↦ (ok (map_access_resend_to_transport r), env1) ]

  -- `/success`, which reads the status with no limit
  unfoldable pub run_success : TransportIncomingEnvelope → String → Exec E TransportSafeResponse
  unfolding map_slice1_storefront_to_transport
  run_success envelope cid env =
      let inp : GetSubscriptionStatusInput = record {
        telegram_user_id = envelope.telegram_user_id;
        correlation_id = cid;
      } in
      let (result, env1) = composition.get_status inp env in
      elim result [
        | err e ↦ (err e, env1)
        | ok r ↦ (
          ok (
              map_slice1_storefront_to_transport
                (if is_active_status r.safe_status
                  then TransportStorefrontCode.store_success_active
                  else TransportStorefrontCode.store_success)
                cid),
          env1,
        )
      ]

  -- A support command, behind its limit
  unfoldable pub run_support :
      TransportIncomingEnvelope → TransportSupportCode → String → Exec E TransportSafeResponse
  unfolding limited map_slice1_support_to_transport
  run_support envelope code cid =
      limited envelope TelegramCommandRateLimitKey.support cid
        (λ env. (ok (map_slice1_support_to_transport code cid), env))

  -- The match on the parsed command.
  unfoldable pub dispatch_parsed :
      (ℕ → String)
      → ℕ
      → TransportIncomingEnvelope
      → NormalizedSlice1Result
      → Exec E TransportSafeResponse
  unfolding normalization_reject_response map_slice1_help_to_transport
      map_slice1_storefront_to_transport run_support run_bootstrap run_status run_resend run_success
      limited
  dispatch_parsed date_text now envelope (NormalizedSlice1Result.normalized_rejected reason) env =
      (ok (normalization_reject_response envelope), env)
  dispatch_parsed date_text now envelope (NormalizedSlice1Result.normalized_help cid) env =
      (ok (map_slice1_help_to_transport cid), env)
  dispatch_parsed date_text now envelope (NormalizedSlice1Result.normalized_plans cid) env =
      (ok (map_slice1_storefront_to_transport TransportStorefrontCode.store_plans cid), env)
  dispatch_parsed date_text now envelope (NormalizedSlice1Result.normalized_buy cid) env =
      (ok (map_slice1_storefront_to_transport TransportStorefrontCode.store_buy cid), env)
  dispatch_parsed date_text now envelope (NormalizedSlice1Result.normalized_success cid) env =
      run_success envelope cid env
  dispatch_parsed date_text now envelope (NormalizedSlice1Result.normalized_renew cid) env =
      (ok (map_slice1_storefront_to_transport TransportStorefrontCode.store_renew cid), env)
  dispatch_parsed date_text now envelope (NormalizedSlice1Result.normalized_support_menu cid) env =
      run_support envelope TransportSupportCode.support_menu cid env
  dispatch_parsed date_text now envelope (NormalizedSlice1Result.normalized_support_contact cid)
        env =
      run_support envelope TransportSupportCode.support_contact cid env
  dispatch_parsed date_text now envelope (NormalizedSlice1Result.normalized_bootstrap inp) env =
      run_bootstrap inp env
  dispatch_parsed date_text now envelope (NormalizedSlice1Result.normalized_status inp) env =
      limited envelope TelegramCommandRateLimitKey.status inp.correlation_id
        (run_status date_text now inp) env
  dispatch_parsed date_text now envelope (NormalizedSlice1Result.normalized_resend_access inp) env =
      limited envelope TelegramCommandRateLimitKey.access_resend inp.correlation_id (run_resend inp)
        env

  unfoldable pub dispatch_slice1_transport :
      (ℕ → String) → ℕ → TransportIncomingEnvelope → Exec E TransportSafeResponse
  unfolding parse_slice1_transport dispatch_parsed
  dispatch_slice1_transport date_text now envelope env =
      dispatch_parsed date_text now envelope (parse_slice1_transport envelope) env
