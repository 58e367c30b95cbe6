-- ===== src/Billing/Apply/Once.antt =====
-- Applying a fact again, after any end of the first call.
use startprojectformillion.Base.{
  ℕ, String, Bool, none, some, [], ◌∷◌, ◌++◌, ◌≡◌, arith, eq_iff, Option-cases, inl, inr,
}
use startprojectformillion.Shared.{Exception, ok, err, Result-cases}
use startprojectformillion.Billing.Facts.{
  BillingEventLedgerRecord, first_time_decision, Uc05PersistInstruction,
}
use startprojectformillion.Billing.Tables.{
  Tables, BillingDb, transaction, select_fact, has_ref, select_apply, upsert_state_in_connection,
}
use startprojectformillion.Billing.Tables.Ends.{settled, transaction_clean, transaction_ends}
use startprojectformillion.Billing.Tables.Rows.{select_fact-fits, select_apply-append}
use startprojectformillion.Billing.Ingest.{validate_ref}
use startprojectformillion.Billing.Apply.{
  apply_row_of, write_snapshot, persist_apply, apply_in_transaction, apply_by_internal_fact_ref,
}

-- The decision keeps the reference of its fact.
pub decision_ref :
    (fact : BillingEventLedgerRecord)
    → (first_time_decision fact).internal_fact_ref ≡ fact.internal_fact_ref
unfolding first_time_decision
decision_ref fact = ground arith

pub persist-tables :
    (ins : Uc05PersistInstruction) (t : Tables)
    → let t' = persist_apply ins t in
      (t'.ledger ≡ t.ledger)
      × (t'.apply_records ≡ t.apply_records ++ apply_row_of ins ∷ [])
      × (t'.ingestion_audit ≡ t.ingestion_audit)
unfolding persist_apply write_snapshot upsert_state_in_connection
persist-tables ins t = ground arith

-- After a first apply the row is there.
persist-recorded :
    (ref : String) (fact : BillingEventLedgerRecord) (t : Tables)
    → select_fact (has_ref ref) t.ledger ≡ some fact
    → select_apply ref t.apply_records ≡ none
    → select_apply ref (persist_apply (first_time_decision fact) t).apply_records
      ≡ some (apply_row_of (first_time_decision fact))
persist-recorded ref fact t found new =
    let ins : Uc05PersistInstruction = first_time_decision fact in
    ground (
      arith,
      persist-tables ins t,
      select_apply-append ref t.apply_records (apply_row_of ins),
      select_fact-fits (has_ref ref) t.ledger fact found,
      decision_ref fact,
      new,
      eq_iff fact.internal_fact_ref ref,
    )

pub apply_again :
    (ref : String) (t : Tables)
    → let (r, t') = apply_in_transaction ref t in (apply_in_transaction ref t').1 ≡ t'
unfolding apply_in_transaction
apply_again ref t = elim (Option-cases (select_fact (has_ref ref) t.ledger)) [
  | inl absent ↦ ground (arith, absent)
  | inr (fact, found) ↦ elim (Option-cases (select_apply ref t.apply_records)) [
    | inl new ↦ ground (
      arith,
      found,
      new,
      persist-recorded ref fact t found new,
      persist-tables (first_time_decision fact) t,
    )
    | inr (row, old) ↦ ground (arith, found, old)
  ]
]

-- UC-05 does not fail within its transaction.
pub apply-settled :
    (ref : String) (t : Tables)
    → settled (apply_in_transaction ref) t ≡ (apply_in_transaction ref t).1
unfolding settled apply_in_transaction
apply-settled ref t = ground arith

settled_again :
    (ref : String) (t : Tables)
    → settled (apply_in_transaction ref) (settled (apply_in_transaction ref) t)
      ≡ settled (apply_in_transaction ref) t
settled_again ref t =
    rw (apply-settled ref t, apply-settled ref (apply_in_transaction ref t).1, apply_again ref t)

-- One apply transaction against whatever the connection does, then one that goes through.
transaction_retry :
    (ref : String) (db : BillingDb)
    → let first = (transaction (apply_in_transaction ref) db).1 in
      (transaction (apply_in_transaction ref) (record { tables = first.tables; faults = [] })).1
      ≡ (transaction (apply_in_transaction ref) (record { tables = db.tables; faults = [] })).1
transaction_retry ref db =
    let body = apply_in_transaction ref in
    elim (transaction_ends body db) [
      | inl same ↦ rw same
      | inr moved ↦ rw (
        moved,
        transaction_clean body (settled body db.tables),
        transaction_clean body db.tables,
        settled_again ref db.tables,
      )
    ]

pub apply_by-invalid :
    (unicode_word : ℕ → Bool) (ref : String) (db : BillingDb) (e : Exception)
    → validate_ref unicode_word ref ≡ err e
    → (apply_by_internal_fact_ref unicode_word ref db).1 ≡ db
unfolding apply_by_internal_fact_ref
apply_by-invalid unicode_word ref db e invalid = ground (arith, invalid)

pub apply_by-valid :
    (unicode_word : ℕ → Bool) (ref : String) (db : BillingDb) (s : String)
    → validate_ref unicode_word ref ≡ ok s
    → apply_by_internal_fact_ref unicode_word ref db ≡ transaction (apply_in_transaction ref) db
unfolding apply_by_internal_fact_ref
apply_by-valid unicode_word ref db s fine = ground (arith, fine)

-- Retrying UC-05 for any reference, after a first call whose connection met any sequence of faults
-- (refused transactions and lost replies of committed ones), once the connection goes through again,
-- leaves the tables exactly as one call without faults would have left them: the decision takes effect
-- once, whatever the first call did.
pub apply_retry :
    (unicode_word : ℕ → Bool) (ref : String) (db : BillingDb)
    → let first = (apply_by_internal_fact_ref unicode_word ref db).1 in
      (apply_by_internal_fact_ref unicode_word ref (record first { faults = [] })).1
      ≡ (apply_by_internal_fact_ref unicode_word ref (record db { faults = [] })).1
apply_retry unicode_word ref db =
    let clean : BillingDb → BillingDb = λ d. record { tables = d.tables; faults = [] } in
    elim (Result-cases (validate_ref unicode_word ref)) [
      | inl (e, bad) ↦
          let same = λ (d : BillingDb). apply_by-invalid unicode_word ref d e bad in
          rw (same (clean db), same db, same (clean db))
      | inr (s, fine) ↦
          let same = λ (d : BillingDb). apply_by-valid unicode_word ref d s fine in
          rw (
            same db,
            same (clean db),
            same (clean (transaction (apply_in_transaction ref) db).1),
            transaction_retry ref db,
          )
    ]

pub apply-ledger : (ref : String) (t : Tables) → (apply_in_transaction ref t).1.ledger ≡ t.ledger
unfolding apply_in_transaction persist_apply write_snapshot upsert_state_in_connection
apply-ledger ref t = ground arith
