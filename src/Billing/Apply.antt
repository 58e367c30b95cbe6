-- ===== src/Billing/Apply.antt =====
-- `PostgresAtomicUC05SubscriptionApply`
-- (backend/src/app/persistence/postgres_billing_subscription_apply.py).
pub mod Once
use startprojectformillion.Base.{
  ℕ, String, Bool, true, false, Option, none, some, List, [], ◌∷◌, ◌++◌, if◌then◌else◌,
}
use startprojectformillion.Shared.{Exec, Result, ok, err, OperationOutcomeCategory}
use startprojectformillion.Handlers.Ports.{SubscriptionSnapshot}
use startprojectformillion.Billing.Facts.{
  BillingSubscriptionApplyOutcome, BillingSubscriptionApplyAuditRecord, Uc05PersistInstruction,
  first_time_decision,
}
use startprojectformillion.Billing.Tables.{
  Tables, BillingDb, ApplyRow, transaction, select_fact, has_ref, select_apply,
  upsert_state_in_connection,
}
use startprojectformillion.Billing.Ingest.{validate_ref}

pub record Uc05PostgresApplyResult : Type 0 where
  pub operation_outcome : OperationOutcomeCategory
  pub idempotent_replay : Bool
  pub apply_outcome : Option BillingSubscriptionApplyOutcome

abbrev pub apply_result :
    OperationOutcomeCategory
    → Bool
    → Option BillingSubscriptionApplyOutcome
    → Uc05PostgresApplyResult
apply_result outcome replay applied = record {
  operation_outcome = outcome;
  idempotent_replay = replay;
  apply_outcome = applied;
}

-- The snapshot that UC-05 writes has no end: `active_until_utc` is left at its default.
unfoldable pub write_snapshot : Uc05PersistInstruction → Tables → Tables
unfolding upsert_state_in_connection
write_snapshot ins t = elim ins.snapshot_state_label [
  | none ↦ t
  | some label ↦
      upsert_state_in_connection
        (record {
          internal_user_id = ins.record_internal_user_id;
          state_label = label;
          active_until_utc = none;
        })
        t
]

abbrev pub apply_row_of : Uc05PersistInstruction → ApplyRow
apply_row_of ins = record {
  internal_fact_ref = ins.internal_fact_ref;
  internal_user_id = ins.record_internal_user_id;
  apply_outcome = ins.apply_outcome;
}

abbrev pub apply_audit_of : Uc05PersistInstruction → BillingSubscriptionApplyAuditRecord
apply_audit_of ins = record {
  internal_fact_ref = ins.internal_fact_ref;
  internal_user_id = ins.audit_internal_user_id;
  billing_provider_key = ins.billing_provider_key;
  external_event_id = ins.external_event_id;
  event_type = ins.event_type;
  billing_event_status = ins.billing_event_status;
  apply_outcome = ins.apply_outcome;
  reason = ins.reason;
}

-- The writes of a first apply.
unfoldable pub persist_apply : Uc05PersistInstruction → Tables → Tables
unfolding write_snapshot
persist_apply ins t =
    let t1 = write_snapshot ins t in
    record t1 {
      apply_records = t1.apply_records ++ apply_row_of ins ∷ [];
      apply_audit = t1.apply_audit ++ apply_audit_of ins ∷ [];
    }

unfoldable pub apply_in_transaction : String → Tables → Result Uc05PostgresApplyResult × Tables
unfolding select_fact select_apply first_time_decision persist_apply
apply_in_transaction ref t = elim (select_fact (has_ref ref) t.ledger) [
  | none ↦ (ok (apply_result OperationOutcomeCategory.not_found false none), t)
  | some fact ↦ elim (select_apply ref t.apply_records) [
    | some row ↦ (
      ok (apply_result OperationOutcomeCategory.idempotent_noop true (some row.apply_outcome)),
      t,
    )
    | none ↦ (
      ok (
          apply_result OperationOutcomeCategory.success false
            (some (first_time_decision fact).apply_outcome)),
      persist_apply (first_time_decision fact) t,
    )
  ]
]

-- `validate_internal_fact_ref_uc05` of the reference as it is; its stripped form is not used.
unfoldable pub apply_by_internal_fact_ref :
    (ℕ → Bool) → String → Exec BillingDb Uc05PostgresApplyResult
unfolding validate_ref apply_in_transaction transaction
apply_by_internal_fact_ref unicode_word ref db = elim (validate_ref unicode_word ref) [
  | err e ↦ (ok (apply_result OperationOutcomeCategory.validation_failure false none), db)
  | ok valid ↦ transaction (apply_in_transaction ref) db
]

-- `ApplyAcceptedBillingFactHandler` (backend/src/app/application/apply_billing_subscription.py)
pub record ApplyAcceptedBillingFactResult : Type 0 where
  pub operation_outcome : OperationOutcomeCategory
  pub idempotent_replay : Bool
  pub apply_outcome : Option BillingSubscriptionApplyOutcome

abbrev pub outcome_to_result : Uc05PostgresApplyResult → ApplyAcceptedBillingFactResult
outcome_to_result pg = record {
  operation_outcome = pg.operation_outcome;
  idempotent_replay = pg.idempotent_replay;
  apply_outcome = pg.apply_outcome;
}

unfoldable pub handle_apply : (ℕ → Bool) → String → Exec BillingDb ApplyAcceptedBillingFactResult
unfolding apply_by_internal_fact_ref
handle_apply unicode_word ref db =
    let (r, db') = apply_by_internal_fact_ref unicode_word ref db in
    elim r [ err e ↦ (err e, db') | ok pg ↦ (ok (outcome_to_result pg), db') ]
