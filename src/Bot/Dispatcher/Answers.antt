-- ===== src/Bot/Dispatcher/Answers.antt =====
-- What is answered to a command.
use startprojectformillion.Base.{ℕ, String, true, ◌≡◌, ap, inl, inr, arith}
use startprojectformillion.Shared.{Exec, Result, ok, OperationOutcomeCategory, Result-cases}
use startprojectformillion.Transport.RateLimit.{TelegramCommandRateLimitKey}
use startprojectformillion.Handlers.Bootstrap.{BootstrapIdentityInput}
use startprojectformillion.Handlers.Status.{GetSubscriptionStatusInput, GetSubscriptionStatusResult}
use startprojectformillion.Handlers.Resend.{TelegramAccessResendInput}
use startprojectformillion.Bot.Codes.{
  TransportErrorCode, TransportStorefrontCode, TransportSupportCode, TransportSafeResponse,
}
use startprojectformillion.Bot.Presentation.{map_slice1_support_to_transport}
use startprojectformillion.Bot.Normalized.{
  TransportIncomingEnvelope, NormalizedSlice1Result, parse_slice1_transport,
}
use startprojectformillion.Bot.Dispatcher.{
  Slice1Composition, limited, emit_rate_limit_decision, run_bootstrap, run_status, run_resend,
  run_success, run_support, dispatch_parsed, dispatch_slice1_transport, rate_limited_response,
  normalization_reject_response,
}
use startprojectformillion.Bot.Outbound.Known.{
  IsKnown, IsBootstrapped, error-IsKnown, help-IsKnown, storefront-IsKnown, support-IsKnown,
  resend-IsKnown, bootstrap-IsKnown, status-IsKnown,
}

module _ {E : Type 0} (composition : Slice1Composition E) (date_text : ℕ → String) (now : ℕ) where
  -- Each answer of a call is known.
  abbrev Answers : Exec E TransportSafeResponse → Type 0
  Answers run = (env env1 : E) (r : TransportSafeResponse) → run env ≡ (ok r, env1) → IsKnown r

  limited-Answers :
      (e : TransportIncomingEnvelope) (key : TelegramCommandRateLimitKey) (cid : String)
      (run : Exec E TransportSafeResponse)
      → Answers run
      → Answers (limited composition e key cid run)
  unfolding limited rate_limited_response
  limited-Answers e key cid run known env env1 r h =
      let (allowed, env2) = composition.allow e.telegram_user_id key env in
      elim (Result-cases allowed) [
        | inl (ex, raised) ↦ ground (arith, h, raised)
        | inr (may, back) ↦ ground (
          arith,
          h,
          back,
          error-IsKnown TransportErrorCode.telegram_command_rate_limited cid,
          known (emit_rate_limit_decision composition e key true cid env2) env1 r,
        )
      ]

  bootstrap-Answers : (inp : BootstrapIdentityInput) → Answers (run_bootstrap composition inp)
  unfolding run_bootstrap
  bootstrap-Answers inp env env1 r h = elim (Result-cases (composition.bootstrap inp env).0) [
    | inl (e, raised) ↦ ground (arith, h, raised)
    | inr (result, back) ↦ ground (arith, h, back, bootstrap-IsKnown result)
  ]

  resend-Answers : (inp : TelegramAccessResendInput) → Answers (run_resend composition inp)
  unfolding run_resend
  resend-Answers inp env env1 r h = elim (Result-cases (composition.access_resend inp env).0) [
    | inl (e, raised) ↦ ground (arith, h, raised)
    | inr (result, back) ↦ ground (arith, h, back, resend-IsKnown result)
  ]

  success-Answers :
      (e : TransportIncomingEnvelope) (cid : String) → Answers (run_success composition e cid)
  unfolding run_success
  success-Answers e cid env env1 r h =
      let inp : GetSubscriptionStatusInput = record {
        telegram_user_id = e.telegram_user_id;
        correlation_id = cid;
      } in
      elim (Result-cases (composition.get_status inp env).0) [
        | inl (ex, raised) ↦ ground (arith, h, raised)
        | inr (result, back) ↦ ground (
          arith,
          h,
          back,
          storefront-IsKnown TransportStorefrontCode.store_success_active cid,
          storefront-IsKnown TransportStorefrontCode.store_success cid,
        )
      ]

  support-Answers :
      (e : TransportIncomingEnvelope) (code : TransportSupportCode) (cid : String)
      → Answers (run_support composition e code cid)
  unfolding run_support
  support-Answers e code cid =
      limited-Answers e TelegramCommandRateLimitKey.support cid
        (λ (env : E). (ok (map_slice1_support_to_transport code cid), env))
        (λ (env env1 : E) (r : TransportSafeResponse)
            (h : ◌≡◌ {A = Result TransportSafeResponse × E}
              (ok (map_slice1_support_to_transport code cid), env) (ok r, env1)).
          ground (arith, h, support-IsKnown code cid))

  -- What the status handler must keep: a success never has the status of an unregistered user.
  abbrev pub StatusIsBootstrapped : Type 0
  StatusIsBootstrapped =
      (inp : GetSubscriptionStatusInput) (env env1 : E) (result : GetSubscriptionStatusResult)
      → composition.get_status inp env ≡ (ok result, env1)
      → result.outcome ≡ OperationOutcomeCategory.success
      → IsBootstrapped result.safe_status

  module _ (bootstrapped : StatusIsBootstrapped) where
    status-Answers :
        (inp : GetSubscriptionStatusInput) → Answers (run_status composition date_text now inp)
    unfolding run_status
    status-Answers inp env env1 r h =
        let (got, env2) = composition.get_status inp env in
        elim (Result-cases got) [
          | inl (ex, raised) ↦ ground (arith, h, raised)
          | inr (result, back) ↦ ground (
            arith,
            h,
            back,
            status-IsKnown date_text now result
                (bootstrapped inp env env2 result (ap (λ g. (g, env2)) back)),
          )
        ]

    parsed-Answers :
        (e : TransportIncomingEnvelope) (parsed : NormalizedSlice1Result)
        → Answers (dispatch_parsed composition date_text now e parsed)
    unfolding dispatch_parsed normalization_reject_response
    parsed-Answers e (NormalizedSlice1Result.normalized_rejected reason) env env1 r h =
        ground (arith, h, error-IsKnown TransportErrorCode.invalid_input e.correlation_id)
    parsed-Answers e (NormalizedSlice1Result.normalized_help cid) env env1 r h =
        ground (arith, h, help-IsKnown cid)
    parsed-Answers e (NormalizedSlice1Result.normalized_plans cid) env env1 r h =
        ground (arith, h, storefront-IsKnown TransportStorefrontCode.store_plans cid)
    parsed-Answers e (NormalizedSlice1Result.normalized_buy cid) env env1 r h =
        ground (arith, h, storefront-IsKnown TransportStorefrontCode.store_buy cid)
    parsed-Answers e (NormalizedSlice1Result.normalized_renew cid) env env1 r h =
        ground (arith, h, storefront-IsKnown TransportStorefrontCode.store_renew cid)
    parsed-Answers e (NormalizedSlice1Result.normalized_success cid) env env1 r h =
        success-Answers e cid env env1 r h
    parsed-Answers e (NormalizedSlice1Result.normalized_support_menu cid) env env1 r h =
        support-Answers e TransportSupportCode.support_menu cid env env1 r h
    parsed-Answers e (NormalizedSlice1Result.normalized_support_contact cid) env env1 r h =
        support-Answers e TransportSupportCode.support_contact cid env env1 r h
    parsed-Answers e (NormalizedSlice1Result.normalized_bootstrap inp) env env1 r h =
        bootstrap-Answers inp env env1 r h
    parsed-Answers e (NormalizedSlice1Result.normalized_status inp) env env1 r h =
        limited-Answers e TelegramCommandRateLimitKey.status inp.correlation_id
          (run_status composition date_text now inp) (status-Answers inp) env env1 r h
    parsed-Answers e (NormalizedSlice1Result.normalized_resend_access inp) env env1 r h =
        limited-Answers e TelegramCommandRateLimitKey.access_resend inp.correlation_id
          (run_resend composition inp) (resend-Answers inp) env env1 r h

    -- Over handlers that keep `StatusIsBootstrapped`, whatever else they and the limiter do, each
    -- response of the dispatcher has a plan with the response's own code as message key, its own
    -- category and its correlation id: none falls to the text for an outage that it is not.
    pub dispatch-IsKnown :
        (e : TransportIncomingEnvelope) (env env1 : E) (r : TransportSafeResponse)
        → dispatch_slice1_transport composition date_text now e env ≡ (ok r, env1)
        → IsKnown r
    unfolding dispatch_slice1_transport
    dispatch-IsKnown e = parsed-Answers e (parse_slice1_transport e)
