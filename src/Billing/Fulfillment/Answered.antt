-- ===== src/Billing/Fulfillment/Answered.antt =====
-- A valid event is accepted where nothing fails.
use startprojectformillion.Base.{ℕ, String, Bool, true, false, none, some, [], ◌≡◌, arith}
use startprojectformillion.Shared.{ok}
use startprojectformillion.Shared.Json.{Json}
use startprojectformillion.Billing.Facts.{Moment, BillingEventLedgerRecord}
use startprojectformillion.Billing.Tables.{
  BillingDb, create_if_absent, transaction, select_fact, has_ref, has_event, row_to_record,
}
use startprojectformillion.Billing.Tables.Ends.{transaction_up}
use startprojectformillion.Billing.Ingest.{
  IngestNormalizedBillingFactResult, ingest_normalized_billing_fact, build_ledger_record_for_ingest,
  ingest_in_transaction, validate_ref,
}
use startprojectformillion.Billing.Apply.{
  Uc05PostgresApplyResult, apply_by_internal_fact_ref, apply_in_transaction,
}
use startprojectformillion.Billing.Apply.Once.{apply_by-valid}
use startprojectformillion.Billing.Steps.Kept.{ingest-valid}
use startprojectformillion.Billing.Fulfillment.{
  handler, fulfill_for, fulfill, answer, apply_paid, apply_stored, ingest_paid,
}
use startprojectformillion.Billing.Fulfillment.Parts.{
  Request, Call, Outside, Ingress, accepted, activate, ingest_input, was_applied, period_of,
  active_until_of,
}
use startprojectformillion.Billing.Fulfillment.Activated.{handle_signed-read}
use startprojectformillion.Billing.Fulfillment.Safe.{IsSigned, handler-passes}
use startprojectformillion.Billing.Fulfillment.Payload.{
  FulfillmentEventPayload, parse_event_payload,
}
use startprojectformillion.Billing.Fulfillment.Identity.{
  FulfillmentIngressSettings, resolve_identity_from_payload,
}
use startprojectformillion.Billing.Fulfillment.Clean.{
  create_clean, ingest_new, apply_found, activate_clean, and_then_next,
}

module _ (outside : Outside) (settings : FulfillmentIngressSettings) (has_notifier : Bool) where
  apply_stored_clean :
      (user : String) (until : Moment) (ingested : IngestNormalizedBillingFactResult)
      (db : BillingDb) (v : String)
      → db.faults ≡ []
      → validate_ref outside.unicode_word ingested.stored.internal_fact_ref ≡ ok v
      → select_fact (has_ref ingested.stored.internal_fact_ref) db.tables.ledger
        ≡ some ingested.stored
      → (result : Uc05PostgresApplyResult) × (((apply_stored outside settings has_notifier user
              until ingested db).0
            ≡ ok result)
          × (was_applied result ≡ true))
  apply_stored_clean user until ingested db v up valid found =
      let ref : String = ingested.stored.internal_fact_ref in
      let call = apply_by_internal_fact_ref outside.unicode_word ref in
      let (result, (done, applied)) = apply_found ref db.tables ingested.stored found in
      let (won, left, after) = transaction_up (apply_in_transaction ref) db result up done in
      let same : call db ≡ transaction (apply_in_transaction ref) db =
        apply_by-valid outside.unicode_word ref db v valid in
      (
        result,
        (
          rw (and_then_next call (activate user until) db result (rw same won), same)
              (activate_clean user until result (transaction (apply_in_transaction ref) db).1
                after),
          applied,
        ),
      )

  apply_paid_clean :
      (payload : FulfillmentEventPayload) (uid : ℕ) (user : String) (until : Moment) (call : Call)
      (db : BillingDb) (fact : BillingEventLedgerRecord) (v : String)
      → db.faults ≡ []
      → build_ledger_record_for_ingest outside.unicode_word call.generated
          (ingest_input settings payload user call)
        ≡ ok fact
      → validate_ref outside.unicode_word fact.internal_fact_ref ≡ ok v
      → select_fact (has_event fact.billing_provider_key fact.external_event_id) db.tables.ledger
        ≡ none
      → select_fact (has_ref fact.internal_fact_ref) db.tables.ledger ≡ none
      → (result : Uc05PostgresApplyResult) × (((apply_paid outside settings has_notifier payload uid
              user until call db).0
            ≡ ok result)
          × (was_applied result ≡ true))
  unfolding apply_paid row_to_record
  apply_paid_clean payload uid user until call db fact v up fine valid new_event new_ref =
      let word = outside.unicode_word in
      let input = ingest_input settings payload user call in
      let body = ingest_in_transaction word fact in
      let (identity, (created, up1, same1)) = create_clean uid db up in
      let db1 : BillingDb = (create_if_absent uid db).1 in
      let stored : IngestNormalizedBillingFactResult = record {
        stored = row_to_record fact;
        is_idempotent_replay = false;
      } in
      let (kept, found) = ingest_new word fact db1.tables (rw same1 new_event) (rw same1 new_ref) in
      let (won, left, up2) = transaction_up body db1 stored up1 kept in
      let same2 = ingest-valid word call.generated input db1 fact fine in
      let (result, (answered, applied)) =
        apply_stored_clean user until stored (transaction body db1).1 v up2 valid (rw left found) in
      (
        result,
        (
          rw
              (
                and_then_next (create_if_absent uid)
                    (ingest_paid outside settings has_notifier payload user until call) db identity
                    created,
                and_then_next (ingest_normalized_billing_fact word call.generated input)
                    (apply_stored outside settings has_notifier user until) db1 stored
                    (rw same2 won),
                same2,
              )
              answered,
          applied,
        ),
      )

  fulfill_for_clean :
      (payload : FulfillmentEventPayload) (uid days : ℕ) (user : String) (until : Moment)
      (call : Call) (s : Ingress) (result : Uc05PostgresApplyResult)
      → active_until_of payload.paid_at days ≡ ok until
      → (apply_paid outside settings has_notifier payload uid user until call s.db).0 ≡ ok result
      → was_applied result ≡ true
      → (fulfill_for outside settings has_notifier (some days) payload uid user call s).0
        ≡ ok accepted
  unfolding fulfill_for fulfill answer
  fulfill_for_clean payload uid days user until call s result in_time paid applied =
      ground (arith, in_time, paid, applied)

  -- A valid event is accepted. Let a request be signed and fresh, let its body be a valid payload
  -- which names a user, with a period that ends before the year 10000, and let the fact that the
  -- event makes be well formed, with a valid reference. Where the ledger has neither this event nor
  -- that reference, and no transaction fails, the ingress answers 200.
  pub handler-accepts :
      (request : Request) (call : Call) (s : Ingress) (json : Json)
      (payload : FulfillmentEventPayload) (uid days : ℕ) (user v : String) (until : Moment)
      (fact : BillingEventLedgerRecord)
      → IsSigned outside settings request call
      → outside.loads_body request.body ≡ ok json
      → parse_event_payload outside.unicode_digit outside.lib.fromisoformat json ≡ ok payload
      → resolve_identity_from_payload outside.lib payload settings call.now_utc ≡ ok (uid, user)
      → period_of payload.period_days settings.default_subscription_period_days ≡ some days
      → active_until_of payload.paid_at days ≡ ok until
      → build_ledger_record_for_ingest outside.unicode_word call.generated
          (ingest_input settings payload user call)
        ≡ ok fact
      → validate_ref outside.unicode_word fact.internal_fact_ref ≡ ok v
      → select_fact (has_event fact.billing_provider_key fact.external_event_id) s.db.tables.ledger
        ≡ none
      → select_fact (has_ref fact.internal_fact_ref) s.db.tables.ledger ≡ none
      → s.db.faults ≡ []
      → (handler outside settings has_notifier request call s).0 ≡ ok accepted
  handler-accepts request call s json payload uid days user v until fact signed loaded read named
        period in_time fine valid new_event new_ref up =
      let (result, (paid, applied)) =
        apply_paid_clean payload uid user until call s.db fact v up fine valid new_event new_ref in
      rw
        (
          handler-passes outside settings has_notifier request call s signed,
          handle_signed-read outside settings has_notifier request.body call s json payload uid user
              loaded read named,
          period,
        )
        (fulfill_for_clean payload uid days user until call s result in_time paid applied)
