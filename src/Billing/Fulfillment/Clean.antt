-- ===== src/Billing/Fulfillment/Clean.antt =====
-- The calls of the ingress one by one, where no transaction fails.
use startprojectformillion.Base.{
  ℕ, String, Bool, true, false, none, some, [], ◌≡◌, inl, inr, arith, eq_refl, Option-cases,
}
use startprojectformillion.Shared.{Exec, ok, OperationOutcomeCategory}
use startprojectformillion.Handlers.Ports.{IdentityRecord}
use startprojectformillion.Billing.Facts.{Moment, BillingEventLedgerRecord, first_time_decision}
use startprojectformillion.Billing.Tables.{
  Tables, BillingDb, create_if_absent, upsert_state, transaction, select_fact, select_apply,
  has_ref, has_event, append_or_get_in_connection, row_to_record, upsert_state_in_connection,
  internal_user_id_for_telegram,
}
use startprojectformillion.Billing.Tables.Rows.{select_fact-append}
use startprojectformillion.Billing.Ingest.{ingest_in_transaction}
use startprojectformillion.Billing.Apply.{
  Uc05PostgresApplyResult, apply_result, apply_in_transaction,
}
use startprojectformillion.Billing.Fulfillment.Parts.{and_then, activate, was_applied}

-- Without faults, creating an identity returns and changes neither ledger nor apply records.
pub create_clean :
    (uid : ℕ) (db : BillingDb)
    → db.faults ≡ []
    → (identity : IdentityRecord) × (((create_if_absent uid db).0 ≡ ok identity)
        × ((create_if_absent uid db).1.faults ≡ [])
        × ((create_if_absent uid db).1.tables.ledger ≡ db.tables.ledger))
unfolding create_if_absent transaction
create_clean uid db up = elim (Option-cases (db.tables.identities uid)) [
  | inl absent ↦ (
    record { internal_user_id = internal_user_id_for_telegram uid; telegram_user_id = uid },
    ground (arith, up, absent),
  )
  | inr (internal, here) ↦
      (record { internal_user_id = internal; telegram_user_id = uid }, ground (arith, up, here))
]

-- A fact whose event and reference are new is recorded.
pub ingest_new :
    (unicode_word : ℕ → Bool) (fact : BillingEventLedgerRecord) (t : Tables)
    → select_fact (has_event fact.billing_provider_key fact.external_event_id) t.ledger ≡ none
    → select_fact (has_ref fact.internal_fact_ref) t.ledger ≡ none
    → ((ingest_in_transaction unicode_word fact t).0
        ≡ ok (record { stored = row_to_record fact; is_idempotent_replay = false }))
      × (select_fact
            (has_ref fact.internal_fact_ref)
            (ingest_in_transaction unicode_word fact t).1.ledger
          ≡ some (row_to_record fact))
unfolding ingest_in_transaction append_or_get_in_connection row_to_record
ingest_new unicode_word fact t new_event new_ref = ground (
  arith,
  new_event,
  new_ref,
  select_fact-append (has_ref fact.internal_fact_ref) t.ledger (row_to_record fact),
  eq_refl fact.internal_fact_ref,
)

-- A fact of the ledger is applied, or was.
pub apply_found :
    (ref : String) (t : Tables) (fact : BillingEventLedgerRecord)
    → select_fact (has_ref ref) t.ledger ≡ some fact
    → (result : Uc05PostgresApplyResult) × (((apply_in_transaction ref t).0 ≡ ok result)
        × (was_applied result ≡ true))
unfolding apply_in_transaction
apply_found ref t fact found = elim (Option-cases (select_apply ref t.apply_records)) [
  | inl new ↦ (
    apply_result OperationOutcomeCategory.success false
        (some (first_time_decision fact).apply_outcome),
    ground (arith, found, new),
  )
  | inr (row, old) ↦ (
    apply_result OperationOutcomeCategory.idempotent_noop true (some row.apply_outcome),
    ground (arith, found, old),
  )
]

pub activate_clean :
    (user : String) (until : Moment) (result : Uc05PostgresApplyResult) (db : BillingDb)
    → db.faults ≡ []
    → (activate user until result db).0 ≡ ok result
unfolding upsert_state transaction upsert_state_in_connection
activate_clean user until result db up = ground (arith, up)

-- A chain goes on where its first call returns.
pub and_then_next :
    {A B : Type 0} (first : Exec BillingDb A) (next : A → Exec BillingDb B) (db : BillingDb) (a : A)
    → (first db).0 ≡ ok a
    → and_then first next db ≡ next a (first db).1
and_then_next first next db a won = ground (arith, won)
