-- ===== src/Billing/Steps/Replay.antt =====
-- An event that was ingested is ingested once: the ledger is only appended to, and a later ingestion of
-- the event returns the first record.
use startprojectformillion.Base.{
  ℕ, String, Bool, true, some, List, ◌≡◌, refl, sym, arith, inl, inr, ◌⊎◌, eq_refl,
}
use startprojectformillion.Shared.{ok}
use startprojectformillion.Billing.Facts.{BillingEventLedgerRecord}
use startprojectformillion.Billing.Tables.{
  transient, Tables, BillingDb, select_fact, has_event, append_or_get_in_connection, row_to_record,
  transaction,
}
use startprojectformillion.Billing.Tables.Ends.{transaction_ok}
use startprojectformillion.Billing.Tables.Rows.{select_fact-append}
use startprojectformillion.Billing.Ingest.{
  NormalizedBillingFactInput, IngestNormalizedBillingFactResult, build_ledger_record_for_ingest,
  ingest_in_transaction, ingest_normalized_billing_fact,
}
use startprojectformillion.Billing.Apply.Once.{apply-ledger}
use startprojectformillion.Billing.Steps.{Step, run}
use startprojectformillion.Billing.Steps.Kept.{run_keeps, ingest-ledger, ingest-valid}

-- What is in the ledger stays there, whatever is called and whatever fails.
pub run-ledger :
    (unicode_word : ℕ → Bool) (steps : List Step) (db : BillingDb)
    (fits : BillingEventLedgerRecord → Bool) (fact : BillingEventLedgerRecord)
    → select_fact fits db.tables.ledger ≡ some fact
    → select_fact fits (run unicode_word steps db).tables.ledger ≡ some fact
run-ledger unicode_word steps db fits fact found =
    run_keeps unicode_word (λ ledger rows. select_fact fits ledger ≡ some fact)
      (λ more t here. elim (ingest-ledger unicode_word more t).1 [
        | inl same ↦ rw same here
        | inr longer ↦ rw (longer, select_fact-append fits t.ledger (row_to_record more), here) refl
      ])
      (λ ref t here. rw (apply-ledger ref t) here) steps db found

-- After an ingestion its record is the one that the event has in the ledger.
ingest-found :
    (unicode_word : ℕ → Bool) (fact : BillingEventLedgerRecord) (t : Tables)
    (result : IngestNormalizedBillingFactResult)
    → (ingest_in_transaction unicode_word fact t).0 ≡ ok result
    → select_fact
        (has_event fact.billing_provider_key fact.external_event_id)
        (ingest_in_transaction unicode_word fact t).1.ledger
      ≡ some result.stored
unfolding ingest_in_transaction append_or_get_in_connection row_to_record
ingest-found unicode_word fact t result done =
    let fits = has_event fact.billing_provider_key fact.external_event_id in
    ground (
      arith,
      done,
      select_fact-append fits t.ledger (row_to_record fact),
      eq_refl fact.billing_provider_key,
      eq_refl fact.external_event_id,
    )

transaction-found :
    (unicode_word : ℕ → Bool) (fact : BillingEventLedgerRecord) (db : BillingDb)
    (result : IngestNormalizedBillingFactResult)
    → (transaction (ingest_in_transaction unicode_word fact) db).0 ≡ ok result
    → select_fact
        (has_event fact.billing_provider_key fact.external_event_id)
        (transaction (ingest_in_transaction unicode_word fact) db).1.tables.ledger
      ≡ some result.stored
transaction-found unicode_word fact db result done =
    let (same, left) = transaction_ok (ingest_in_transaction unicode_word fact) db result done in
    rw left (ingest-found unicode_word fact db.tables result same)

-- A transaction of the event once it has a record.
replayed :
    (unicode_word : ℕ → Bool) (fact : BillingEventLedgerRecord) (db : BillingDb)
    (old : BillingEventLedgerRecord)
    → select_fact (has_event fact.billing_provider_key fact.external_event_id) db.tables.ledger
      ≡ some old
    → let (r, db') = transaction (ingest_in_transaction unicode_word fact) db in
      ((r ≡ transient) ⊎ (r ≡ ok (record { stored = old; is_idempotent_replay = true })))
      × (db'.tables.ledger ≡ db.tables.ledger)
unfolding transaction ingest_in_transaction append_or_get_in_connection
replayed unicode_word fact db old found = ground (arith, found)

-- Let the ingestion of a valid event return `first`. After any further calls against any connection
-- faults, ingesting an input with the same provider and external event id, under any generated
-- reference, returns the stored record of `first` as an idempotent replay, or fails as a transient
-- dependency error; in both cases the ledger stays what it was.
pub ingest_replay :
    (unicode_word : ℕ → Bool) (db : BillingDb) (steps : List Step) (generated generated' : String)
    (input input' : NormalizedBillingFactInput) (fact fact' : BillingEventLedgerRecord)
    (first : IngestNormalizedBillingFactResult)
    → build_ledger_record_for_ingest unicode_word generated input ≡ ok fact
    → build_ledger_record_for_ingest unicode_word generated' input' ≡ ok fact'
    → fact'.billing_provider_key ≡ fact.billing_provider_key
    → fact'.external_event_id ≡ fact.external_event_id
    → (ingest_normalized_billing_fact unicode_word generated input db).0 ≡ ok first
    → let db1 =
        run unicode_word steps (ingest_normalized_billing_fact unicode_word generated input db).1 in
      let (r, db2) = ingest_normalized_billing_fact unicode_word generated' input' db1 in
      ((r ≡ transient) ⊎ (r ≡ ok (record { stored = first.stored; is_idempotent_replay = true })))
      × (db2.tables.ledger ≡ db1.tables.ledger)
ingest_replay unicode_word db steps generated generated' input input' fact fact' first fine fine'
      provider event done =
    let body = ingest_in_transaction unicode_word fact in
    let same = ingest-valid unicode_word generated input db fact fine in
    let db1 : BillingDb = run unicode_word steps (transaction body db).1 in
    let found =
      run-ledger unicode_word steps (transaction body db).1
        (has_event fact.billing_provider_key fact.external_event_id) first.stored
        (transaction-found unicode_word fact db first (rw (sym same) done)) in
    rw (same, ingest-valid unicode_word generated' input' db1 fact' fine')
      (replayed unicode_word fact' db1 first.stored (rw (provider, event) found))
