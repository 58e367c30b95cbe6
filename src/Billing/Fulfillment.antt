-- ===== src/Billing/Fulfillment.antt =====
-- The handler of `create_payment_fulfillment_ingress_app`
-- (backend/src/app/runtime/payment_fulfillment_ingress.py). The clock, the ids that `uuid4` makes, the
-- body's JSON and the library are parameters; what is sent to the telemetry and to the notifier is
-- recorded, since neither can change the answer. The text of a notice is not modelled.
pub mod Parts
pub mod Headers
pub mod Payload
pub mod Identity
pub mod Settings
pub mod Safe
pub mod Written
pub mod Booked
pub mod Activated
pub mod Clean
pub mod Answered
use startprojectformillion.Base.{
  ℕ, ◌+◌, ◌*◌, String, Bool, true, false, ◌&&◌, not, Option, none, some, List, [], ◌∷◌, ◌++◌, ltb,
  if◌then◌else◌, str_eq, strip,
}
use startprojectformillion.Shared.{
  Exec, Result, Exception, ok, err, validation_error, value_error, other_exception,
  OperationOutcomeCategory,
}
use startprojectformillion.Handlers.Ports.{SubscriptionSnapshot, IdentityRecord}
use startprojectformillion.Shared.Json.{Json}
use startprojectformillion.Billing.Facts.{
  Moment, DateTime, aware, BillingEventLedgerStatus, BillingSubscriptionApplyOutcome,
}
use startprojectformillion.Billing.Tables.{BillingDb, create_if_absent, upsert_state}
use startprojectformillion.Billing.Ingest.{
  NormalizedBillingFactInput, IngestNormalizedBillingFactResult, ingest_normalized_billing_fact,
}
use startprojectformillion.Billing.Apply.{Uc05PostgresApplyResult, apply_by_internal_fact_ref}
use startprojectformillion.Billing.Reference.{Library, second}
use startprojectformillion.Billing.Fulfillment.Headers.{
  parse_signature_header, parse_timestamp_header, stale_request,
}
use startprojectformillion.Billing.Fulfillment.Payload.{
  Digit, FulfillmentEventPayload, parse_event_payload,
}
use startprojectformillion.Billing.Fulfillment.Identity.{
  FulfillmentIngressSettings, resolve_identity_from_payload,
}
use startprojectformillion.Billing.Fulfillment.Parts.{
  Request, Call, Outside, JsonResponse, json_error, accepted, Notice, Ingress, end_of_time, day,
  active_until_of, period_of, ingest_input, was_applied, and_then, snapshot_until, emit, refuse,
  is_first_activation, notify, activate,
}

module _ (outside : Outside) (settings : FulfillmentIngressSettings) (has_notifier : Bool) where
  abbrev pub apply_stored :
      String → Moment → IngestNormalizedBillingFactResult → Exec BillingDb Uc05PostgresApplyResult
  apply_stored internal_user_id until ingested =
      and_then (apply_by_internal_fact_ref outside.unicode_word ingested.stored.internal_fact_ref)
        (activate internal_user_id until)

  abbrev pub ingest_paid :
      FulfillmentEventPayload
      → String
      → Moment
      → Call
      → IdentityRecord
      → Exec BillingDb Uc05PostgresApplyResult
  ingest_paid payload internal_user_id until call identity =
      and_then
        (ingest_normalized_billing_fact outside.unicode_word call.generated
          (ingest_input settings payload internal_user_id call))
        (apply_stored internal_user_id until)

  -- The calls of the database, up to the answer of UC-05.
  unfoldable pub apply_paid :
      FulfillmentEventPayload → ℕ → String → Moment → Call → Exec BillingDb Uc05PostgresApplyResult
  unfolding create_if_absent ingest_normalized_billing_fact apply_by_internal_fact_ref upsert_state
  apply_paid payload telegram_user_id internal_user_id until call =
      and_then (create_if_absent telegram_user_id) (ingest_paid payload internal_user_id until call)

  -- What is answered after the calls of the database.
  unfoldable pub answer : Result Uc05PostgresApplyResult → Notice → Exec Ingress JsonResponse
  answer (err e) notice s = refuse 503 "temporarily_unavailable" "dependency_failure" s
  answer (ok result) notice s =
      if was_applied result
      then (ok accepted, emit "accepted" "applied" (notify has_notifier result notice s))
      else refuse 409 "rejected" "apply_failed" s

  unfoldable pub fulfill :
      FulfillmentEventPayload → ℕ → String → Moment → Call → Exec Ingress JsonResponse
  unfolding apply_paid answer
  fulfill payload telegram_user_id internal_user_id until call s =
      let (r, db') = apply_paid payload telegram_user_id internal_user_id until call s.db in
      answer r
        (record {
          telegram_user_id = telegram_user_id;
          active_until = until;
          correlation_id = call.correlation_id;
        })
        (record s { db = db' })

  -- With the period of the subscription.
  unfoldable pub fulfill_for :
      Option ℕ → FulfillmentEventPayload → ℕ → String → Call → Exec Ingress JsonResponse
  unfolding active_until_of fulfill
  fulfill_for none payload telegram_user_id internal_user_id call s =
      refuse 400 "invalid_payload" "missing_subscription_period" s
  fulfill_for (some period_days) payload telegram_user_id internal_user_id call s =
      elim (active_until_of payload.paid_at period_days) [
        | err e ↦ (err e, s)
        | ok until ↦ fulfill payload telegram_user_id internal_user_id until call s
      ]

  -- A `ValidationError` is answered; any other exception leaves the handler.
  abbrev pub invalid : Exception → String → Exec Ingress JsonResponse
  invalid validation_error reason s = refuse 400 "invalid_payload" reason s
  invalid e reason s = (err e, s)

  unfoldable pub handle_signed : List ℕ → Call → Exec Ingress JsonResponse
  unfolding parse_event_payload resolve_identity_from_payload fulfill_for
  handle_signed body call s = elim (outside.loads_body body) [
    | err value_error ↦ refuse 400 "invalid_payload" "invalid_payload" s
    | err e ↦ (err e, s)
    | ok json ↦ elim (parse_event_payload outside.unicode_digit outside.lib.fromisoformat json) [
      | err e ↦ invalid e "invalid_payload" s
      | ok payload ↦
          elim (resolve_identity_from_payload outside.lib payload settings call.now_utc) [
            | err e ↦ invalid e "invalid_checkout_reference" s
            | ok (telegram_user_id, internal_user_id) ↦
                fulfill_for
                  (period_of payload.period_days settings.default_subscription_period_days) payload
                  telegram_user_id internal_user_id call s
          ]
    ]
  ]

  unfoldable pub is_signed : Request → String → Bool
  unfolding strip
  is_signed request digest =
      str_eq digest
        (outside.signature_hex_for settings.secret (strip request.timestamp_header) request.body)

  unfoldable pub handler : Request → Call → Exec Ingress JsonResponse
  unfolding parse_timestamp_header parse_signature_header stale_request is_signed handle_signed
  handler request call s = elim (parse_timestamp_header request.timestamp_header) [
    | none ↦ refuse 401 "unauthorized" "missing_or_invalid_signature_headers" s
    | some epoch ↦ elim (parse_signature_header request.signature_header) [
      | none ↦ refuse 401 "unauthorized" "missing_or_invalid_signature_headers" s
      | some digest ↦
          if stale_request call.now_epoch epoch settings.max_age_seconds
          then refuse 401 "unauthorized" "stale_or_replay_window" s
          else if is_signed request digest
          then handle_signed request.body call s
          else refuse 401 "unauthorized" "invalid_signature" s
    ]
  ]
