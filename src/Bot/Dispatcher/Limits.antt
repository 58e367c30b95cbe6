-- ===== src/Bot/Dispatcher/Limits.antt =====
-- Rate limits and what may run behind them.
use startprojectformillion.Base.{
  ℕ, String, true, false, Option, none, some, is_some, if◌then◌else◌, ◌≡◌, ◌⊎◌, arith, inl, inr,
  Bool-cases,
}
use startprojectformillion.Shared.{Exec, Exception, ok, err, Result-cases}
use startprojectformillion.Transport.RateLimit.{TelegramCommandRateLimitKey}
use startprojectformillion.Bot.Codes.{
  TransportResponseCategory, TransportSafeResponse, TransportSupportCode,
}
use startprojectformillion.Bot.Presentation.{map_slice1_support_to_transport}
use startprojectformillion.Bot.Normalized.{
  TransportIncomingEnvelope, NormalizedSlice1Result, parse_slice1_transport,
}
use startprojectformillion.Bot.Dispatcher.{
  Slice1Composition, TelegramCommandRateLimitDecisionEvent, limited, emit_rate_limit_decision,
  decision_event, command_bucket_from_key, window_bucket_from_key, update_marker_of,
  rate_limited_response, dispatch_slice1_transport, dispatch_parsed, run_support, run_status,
  run_resend,
}

-- What the telemetry is told of a decision.
abbrev pub told_of :
    TransportIncomingEnvelope
    → String
    → String
    → String
    → String
    → TelegramCommandRateLimitDecisionEvent
told_of e command window decision cid = record {
  event_type = "telegram_command_rate_limit_decision";
  command_bucket = command;
  decision = decision;
  limit_window_bucket = window;
  principal_marker = "telegram_user_redacted";
  correlation_id = cid;
  update_marker = if is_some e.telegram_update_id then "present" else "absent";
}

-- The error that says that the rate is limited.
abbrev pub rate_is_limited : String → TransportSafeResponse
rate_is_limited cid = record {
  category = TransportResponseCategory.error;
  code = "telegram_command_rate_limited";
  correlation_id = cid;
  next_action_hint = none;
  replay_suppresses_outbound = false;
  uc01_idempotency_key = none;
  active_until_ymd = none;
  subscription_active_recovery_followup = false;
}

-- The limit that a command stands under, and what runs behind it.
pub record Limit (E : Type 0) : Type 0 where
  pub key : TelegramCommandRateLimitKey
  pub command : String
  pub window : String
  pub correlation_id : String
  pub serve : Exec E TransportSafeResponse

module _ {E : Type 0} (composition : Slice1Composition E) (date_text : ℕ → String) (now : ℕ) where
  -- `/status`, `/resend_access` and the two support commands stand under a limit.
  abbrev pub limit_of : NormalizedSlice1Result → Option (Limit E)
  limit_of (NormalizedSlice1Result.normalized_status inp) = some (record {
    key = TelegramCommandRateLimitKey.status;
    command = "status";
    window = "status_window";
    correlation_id = inp.correlation_id;
    serve = run_status composition date_text now inp;
  })
  limit_of (NormalizedSlice1Result.normalized_resend_access inp) = some (record {
    key = TelegramCommandRateLimitKey.access_resend;
    command = "access_resend";
    window = "access_resend_window";
    correlation_id = inp.correlation_id;
    serve = run_resend composition inp;
  })
  limit_of (NormalizedSlice1Result.normalized_support_menu cid) = some (record {
    key = TelegramCommandRateLimitKey.support;
    command = "support";
    window = "support_window";
    correlation_id = cid;
    serve =
        λ env. (ok (map_slice1_support_to_transport TransportSupportCode.support_menu cid), env);
  })
  limit_of (NormalizedSlice1Result.normalized_support_contact cid) = some (record {
    key = TelegramCommandRateLimitKey.support;
    command = "support";
    window = "support_window";
    correlation_id = cid;
    serve =
        λ env. (ok (map_slice1_support_to_transport TransportSupportCode.support_contact cid), env);
  })
  limit_of _ = none

  -- Each of the limiter's answers, and what `run` does after it.
  abbrev pub ObeysLimit :
      TransportIncomingEnvelope → Limit E → Exec E TransportSafeResponse → E → Type 0
  ObeysLimit e limit run env =
      let cid = limit.correlation_id in
      let (allowed, env1) = composition.allow e.telegram_user_id limit.key env in
      ((allowed ≡ ok true)
        × (run env
            ≡ limit.serve
                (composition.emit_decision (told_of e limit.command limit.window "allowed" cid)
                  env1).1))
      ⊎ (((allowed ≡ ok false)
            × (run env ≡ (
              ok (rate_is_limited cid),
              (composition.emit_decision (told_of e limit.command limit.window "limited" cid)
                  env1).1,
            )))
          ⊎ ((x : Exception) × ((allowed ≡ err x) × (run env ≡ (err x, env1)))))

  parsed-ObeysLimit :
      (e : TransportIncomingEnvelope) (parsed : NormalizedSlice1Result) (limit : Limit E) (env : E)
      → limit_of parsed ≡ some limit
      → ObeysLimit e limit (dispatch_parsed composition date_text now e parsed) env
  unfolding dispatch_parsed run_support limited emit_rate_limit_decision decision_event
      command_bucket_from_key window_bucket_from_key update_marker_of rate_limited_response
  parsed-ObeysLimit e parsed limit env under =
      let (allowed, env1) = composition.allow e.telegram_user_id limit.key env in
      elim (Result-cases (composition.allow e.telegram_user_id limit.key env).0) [
        | inl (x, raised) ↦ inr (inr (x, (raised, ground (arith, under, raised))))
        | inr (b, answered) ↦ elim (Bool-cases b) [
          | inl granted ↦
              inl (ground (arith, answered, granted), ground (arith, under, answered, granted))
          | inr denied ↦
              inr (inl (ground (arith, answered, denied), ground (arith, under, answered, denied)))
        ]
      ]

  -- A command that stands under a limit is served only where the rate limiter grants it, and the
  -- telemetry is told that it is allowed first. Where the limiter refuses it, the answer is the error
  -- that says that the rate is limited, under the command's correlation id, and nothing is called
  -- after the limiter but the telemetry, which is told that it is limited. Where the limiter raises,
  -- so does the dispatcher, and nothing is called after it.
  pub dispatch-limited :
      (e : TransportIncomingEnvelope) (limit : Limit E) (env : E)
      → limit_of (parse_slice1_transport e) ≡ some limit
      → ObeysLimit e limit (dispatch_slice1_transport composition date_text now e) env
  unfolding dispatch_slice1_transport
  dispatch-limited e limit env under =
      parsed-ObeysLimit e (parse_slice1_transport e) limit env under
