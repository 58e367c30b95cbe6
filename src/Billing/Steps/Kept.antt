-- ===== src/Billing/Steps/Kept.antt =====
-- What holds of the tables after every step when each body keeps it, and that the ledger is only
-- appended to.
use startprojectformillion.Base.{ℕ, String, Bool, List, [], ◌∷◌, ◌++◌, ◌≡◌, arith, inl, inr, ◌⊎◌}
use startprojectformillion.Shared.{Exception, ok, err, Result-cases}
use startprojectformillion.Handlers.Ports.{SubscriptionSnapshot}
use startprojectformillion.Billing.Facts.{BillingEventLedgerRecord}
use startprojectformillion.Billing.Tables.{
  Tables, BillingDb, ApplyRow, transaction, create_if_absent, upsert_state,
  upsert_state_in_connection, append_or_get_in_connection, row_to_record,
}
use startprojectformillion.Billing.Tables.Ends.{settled, transaction_ends}
use startprojectformillion.Billing.Ingest.{
  validate_ref, NormalizedBillingFactInput, build_ledger_record_for_ingest, ingest_in_transaction,
  ingest_normalized_billing_fact,
}
use startprojectformillion.Billing.Apply.{apply_in_transaction, apply_by_internal_fact_ref}
use startprojectformillion.Billing.Apply.Once.{apply_by-valid, apply_by-invalid, apply-settled}
use startprojectformillion.Billing.Steps.{Step, step, run}

ingest-invalid :
    (unicode_word : ℕ → Bool) (generated : String) (input : NormalizedBillingFactInput)
    (db : BillingDb) (e : Exception)
    → build_ledger_record_for_ingest unicode_word generated input ≡ err e
    → (ingest_normalized_billing_fact unicode_word generated input db).1 ≡ db
unfolding ingest_normalized_billing_fact
ingest-invalid unicode_word generated input db e bad = rw (bad, ingest_normalized_billing_fact)

pub ingest-valid :
    (unicode_word : ℕ → Bool) (generated : String) (input : NormalizedBillingFactInput)
    (db : BillingDb) (fact : BillingEventLedgerRecord)
    → build_ledger_record_for_ingest unicode_word generated input ≡ ok fact
    → ingest_normalized_billing_fact unicode_word generated input db
      ≡ transaction (ingest_in_transaction unicode_word fact) db
unfolding ingest_normalized_billing_fact
ingest-valid unicode_word generated input db fact fine = rw (fine, ingest_normalized_billing_fact)

-- What an ingestion leaves of the ledger.
pub ingest-ledger :
    (unicode_word : ℕ → Bool) (fact : BillingEventLedgerRecord) (t : Tables)
    → let t' = settled (ingest_in_transaction unicode_word fact) t in
      (t'.apply_records ≡ t.apply_records)
      × ((t'.ledger ≡ t.ledger) ⊎ (t'.ledger ≡ t.ledger ++ row_to_record fact ∷ []))
unfolding settled ingest_in_transaction append_or_get_in_connection
ingest-ledger unicode_word fact t = ground arith

pub create-tables :
    (telegram_user_id : ℕ) (db : BillingDb)
    → let t' = (create_if_absent telegram_user_id db).1.tables in
      (t'.ledger ≡ db.tables.ledger)
      × (t'.apply_records ≡ db.tables.apply_records)
      × (t'.snapshots ≡ db.tables.snapshots)
unfolding create_if_absent transaction
create-tables telegram_user_id db = ground arith

pub upsert-tables :
    (snapshot : SubscriptionSnapshot) (db : BillingDb)
    → let t' = (upsert_state snapshot db).1.tables in
      (t'.ledger ≡ db.tables.ledger) × (t'.apply_records ≡ db.tables.apply_records)
unfolding upsert_state transaction upsert_state_in_connection
upsert-tables snapshot db = ground arith

-- A property of the ledger and of the apply records.
module _ (unicode_word : ℕ → Bool) (P : List BillingEventLedgerRecord → List ApplyRow → Type 0)
    (ingests : (fact : BillingEventLedgerRecord) (t : Tables)
      → P t.ledger t.apply_records
      → let t' = settled (ingest_in_transaction unicode_word fact) t in
        P t'.ledger t'.apply_records)
    (applies : (ref : String) (t : Tables)
      → P t.ledger t.apply_records
      → let t' = (apply_in_transaction ref t).1 in P t'.ledger t'.apply_records) where
  apply_keeps :
      (ref : String) (db : BillingDb)
      → P db.tables.ledger db.tables.apply_records
      → let t' = (apply_by_internal_fact_ref unicode_word ref db).1.tables in
        P t'.ledger t'.apply_records
  apply_keeps ref db p = elim (Result-cases (validate_ref unicode_word ref)) [
    | inl (e, bad) ↦ rw (apply_by-invalid unicode_word ref db e bad) p
    | inr (v, fine) ↦ elim (transaction_ends (apply_in_transaction ref) db) [
      | inl same ↦ rw (apply_by-valid unicode_word ref db v fine, same) p
      | inr moved ↦
          rw (apply_by-valid unicode_word ref db v fine, moved, apply-settled ref db.tables)
            (applies ref db.tables p)
    ]
  ]

  ingest_keeps :
      (generated : String) (input : NormalizedBillingFactInput) (db : BillingDb)
      → P db.tables.ledger db.tables.apply_records
      → let t' = (ingest_normalized_billing_fact unicode_word generated input db).1.tables in
        P t'.ledger t'.apply_records
  ingest_keeps generated input db p =
      elim (Result-cases (build_ledger_record_for_ingest unicode_word generated input)) [
        | inl (e, bad) ↦ rw (ingest-invalid unicode_word generated input db e bad) p
        | inr (fact, fine) ↦ elim (transaction_ends (ingest_in_transaction unicode_word fact) db) [
          | inl same ↦ rw (ingest-valid unicode_word generated input db fact fine, same) p
          | inr moved ↦
              rw (ingest-valid unicode_word generated input db fact fine, moved)
                (ingests fact db.tables p)
        ]
      ]

  step_keeps :
      (s : Step) (db : BillingDb)
      → P db.tables.ledger db.tables.apply_records
      → let t' = (step unicode_word s db).tables in P t'.ledger t'.apply_records
  unfolding step
  step_keeps (Step.create n) db p = rw ((create-tables n db).0, (create-tables n db).1) p
  step_keeps (Step.upsert snapshot) db p =
      rw ((upsert-tables snapshot db).0, (upsert-tables snapshot db).1) p
  step_keeps (Step.apply ref) db p = apply_keeps ref db p
  step_keeps (Step.ingest generated input) db p = ingest_keeps generated input db p

  pub run_keeps :
      (steps : List Step) (db : BillingDb)
      → P db.tables.ledger db.tables.apply_records
      → let t' = (run unicode_word steps db).tables in P t'.ledger t'.apply_records
  unfolding run
  run_keeps [] db p = p
  run_keeps (s ∷ steps) db p = run_keeps steps (step unicode_word s db) (step_keeps s db p)
