-- ===== src/Tests/Billing.antt =====
-- A payment that is ingested and applied, and what the laws of the billing tables say of it.
use startprojectformillion.Base.{
  ℕ, String, Bool, true, false, none, some, List, [], ◌∷◌, ◌≡◌, ◌⊎◌, refl,
}
use startprojectformillion.Shared.{ok}
use startprojectformillion.Persistence.IssuanceState.{Fault}
use startprojectformillion.Billing.Facts.{
  Moment, aware, BillingEventLedgerRecord, BillingEventLedgerStatus,
  BillingSubscriptionApplyOutcome,
}
use startprojectformillion.Billing.Tables.{
  BillingDb, ApplyRow, no_rows, select_fact, select_apply, has_ref, transient, row_to_record,
}
use startprojectformillion.Billing.Ingest.{
  NormalizedBillingFactInput, build_ledger_record_for_ingest, ingest_normalized_billing_fact,
}
use startprojectformillion.Billing.Apply.{apply_by_internal_fact_ref, handle_apply}
use startprojectformillion.Billing.Memory.{
  Memory, no_facts, handle_ingest, get_user_billing_facts_summary, BillingFactsPresenceCategory,
}
use startprojectformillion.Billing.Memory.Agrees.{IsMirrored, ingest_agrees}
use startprojectformillion.Billing.Apply.Once.{apply_retry}
use startprojectformillion.Billing.Steps.{Step, run}
use startprojectformillion.Billing.Steps.Justified.{IsPaidBy, active_is_paid}
use startprojectformillion.Billing.Steps.Replay.{ingest_replay}

abbrev paid_at : Moment
paid_at = record { wall = 7200000000; utc = 3600000000 }

abbrev ascii_only : ℕ → Bool
ascii_only c = false

abbrev payment : NormalizedBillingFactInput
payment = record {
  billing_provider_key = " provider_agnostic_v1";
  external_event_id = "evt-1";
  event_type = "subscription_activated";
  event_effective_at = aware paid_at;
  event_received_at = aware paid_at;
  status = BillingEventLedgerStatus.accepted;
  ingestion_correlation_id = "fulfill-1";
  internal_user_id = some "u42";
  checkout_attempt_id = some "pay-1";
  amount_currency = none;
  internal_fact_ref = none;
}

abbrev fact_of : String → BillingEventLedgerRecord
fact_of ref = record {
  internal_fact_ref = ref;
  billing_provider_key = "provider_agnostic_v1";
  external_event_id = "evt-1";
  event_type = "subscription_activated";
  event_effective_at = paid_at;
  event_received_at = paid_at;
  internal_user_id = some "u42";
  checkout_attempt_id = some "pay-1";
  amount_currency = none;
  status = BillingEventLedgerStatus.accepted;
  ingestion_correlation_id = "fulfill-1";
}

abbrev paid_row : ApplyRow
paid_row = record {
  internal_fact_ref = "ref-1";
  internal_user_id = "u42";
  apply_outcome = BillingSubscriptionApplyOutcome.active_applied;
}

abbrev first_steps : List Step
first_steps = Step.ingest "ref-1" payment ∷ Step.apply "ref-1" ∷ []

abbrev with_faults : List Fault → BillingDb
with_faults faults = record { tables = no_rows; faults = faults }

-- The reply to the ingestion is lost, and the first apply is refused.
abbrev ingested : BillingDb
ingested =
    run ascii_only (Step.ingest "ref-1" payment ∷ [])
      (with_faults (Fault.reply_lost ∷ Fault.refused ∷ []))

payment_built : build_ledger_record_for_ingest ascii_only "ref-1" payment ≡ ok (fact_of "ref-1")
unfolding build_ledger_record_for_ingest
payment_built = refl

again_built : build_ledger_record_for_ingest ascii_only "ref-2" payment ≡ ok (fact_of "ref-2")
unfolding build_ledger_record_for_ingest
again_built = refl

payment_recorded :
    select_apply "ref-1" (run ascii_only first_steps (with_faults [])).tables.apply_records
    ≡ some paid_row
unfolding run select_apply
payment_recorded = refl

payment_ingested :
    (ingest_normalized_billing_fact ascii_only "ref-1" payment (with_faults [])).0
    ≡ ok (record { stored = fact_of "ref-1"; is_idempotent_replay = false })
unfolding ingest_normalized_billing_fact
payment_ingested = refl

apply_retry_example :
    let first = (apply_by_internal_fact_ref ascii_only "ref-1" ingested).1 in
    (apply_by_internal_fact_ref ascii_only "ref-1" (record first { faults = [] })).1
    ≡ (apply_by_internal_fact_ref ascii_only "ref-1" (record ingested { faults = [] })).1
apply_retry_example = apply_retry ascii_only "ref-1" ingested

active_is_paid_example :
    let t' = (run ascii_only first_steps (with_faults [])).tables in
    (fact : BillingEventLedgerRecord) × ((select_fact (has_ref "ref-1") t'.ledger ≡ some fact)
      × IsPaidBy "u42" fact)
active_is_paid_example =
    active_is_paid ascii_only first_steps [] "ref-1" paid_row payment_recorded refl

ingest_replay_example :
    let db1 =
      run ascii_only
        (Step.apply "ref-1" ∷ [])
        (ingest_normalized_billing_fact ascii_only "ref-1" payment (with_faults [])).1 in
    let (r, db2) = ingest_normalized_billing_fact ascii_only "ref-2" payment db1 in
    ((r ≡ transient) ⊎ (r ≡ ok (record { stored = fact_of "ref-1"; is_idempotent_replay = true })))
    × (db2.tables.ledger ≡ db1.tables.ledger)
ingest_replay_example =
    ingest_replay ascii_only (with_faults []) (Step.apply "ref-1" ∷ []) "ref-1" "ref-2" payment
      payment (fact_of "ref-1") (fact_of "ref-2")
      (record { stored = fact_of "ref-1"; is_idempotent_replay = false }) payment_built again_built
      refl refl payment_ingested

abbrev no_memory : Memory
no_memory = record { ledger = no_facts; audit = [] }

mirrored : IsMirrored no_memory no_rows
unfolding select_fact
mirrored = ((refl, λ provider event. refl, λ ref. refl), refl)

ingest_agrees_example :
    let (r, m') = handle_ingest ascii_only "ref-1" payment no_memory in
    let (r', db') = ingest_normalized_billing_fact ascii_only "ref-1" payment (with_faults []) in
    (r' ≡ r) × IsMirrored m' db'.tables
unfolding select_fact row_to_record
ingest_agrees_example =
    ingest_agrees ascii_only "ref-1" payment (fact_of "ref-1") no_memory (with_faults [])
      payment_built mirrored refl refl refl

-- A user with one accepted fact, and one without.
summaries :
    let m = (handle_ingest ascii_only "ref-1" payment no_memory).1.ledger in
    ((get_user_billing_facts_summary "u42" m).internal_fact_refs ≡ "ref-1" ∷ [])
    × ((get_user_billing_facts_summary "u43" m).category ≡ BillingFactsPresenceCategory.nothing)
unfolding handle_ingest get_user_billing_facts_summary
summaries = (refl, refl)

applied_through_handler :
    (handle_apply ascii_only "ref-1" (record ingested { faults = [] })).1.tables.apply_records
    ≡ paid_row ∷ []
unfolding handle_apply run
applied_through_handler = refl
