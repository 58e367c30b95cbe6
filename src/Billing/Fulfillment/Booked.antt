-- ===== src/Billing/Fulfillment/Booked.antt =====
-- What an accepted call of the ingress leaves in the ledger.
use startprojectformillion.Base.{
  ℕ, String, Bool, none, some, List, [], ◌∷◌, ◌++◌, ◌≡◌, ◌⊎◌, inl, inr, refl, sym, ap, ◌∙◌, arith,
  Option-cases, Bool-cases,
}
use startprojectformillion.Shared.{Exec, Exception, Result, ok, err, Result-cases}
use startprojectformillion.Billing.Facts.{Moment, BillingEventLedgerRecord}
use startprojectformillion.Billing.Tables.{
  Tables, BillingDb, create_if_absent, select_fact, has_event, row_to_record,
  append_or_get_in_connection,
}
use startprojectformillion.Billing.Tables.Ends.{transaction_ok, transaction_ends}
use startprojectformillion.Billing.Ingest.{
  NormalizedBillingFactInput, IngestNormalizedBillingFactResult, build_ledger_record_for_ingest,
  ingest_in_transaction, ingest_normalized_billing_fact, validate_ref,
}
use startprojectformillion.Billing.Apply.{
  Uc05PostgresApplyResult, apply_by_internal_fact_ref, apply_in_transaction,
}
use startprojectformillion.Billing.Apply.Once.{
  apply_by-valid, apply_by-invalid, apply-settled, apply-ledger,
}
use startprojectformillion.Billing.Steps.Kept.{create-tables, upsert-tables, ingest-valid}
use startprojectformillion.Billing.Fulfillment.{
  apply_paid, apply_stored, ingest_paid, fulfill, answer,
}
use startprojectformillion.Billing.Fulfillment.Parts.{
  Call, Outside, Ingress, accepted, and_then, activate, ingest_input, snapshot_until, was_applied,
}
use startprojectformillion.Billing.Fulfillment.Payload.{FulfillmentEventPayload}
use startprojectformillion.Billing.Fulfillment.Identity.{FulfillmentIngressSettings}

-- The ledger has a new row for this fact, whose event it did not hold.
abbrev pub IsNewIn :
    BillingEventLedgerRecord
    → List BillingEventLedgerRecord
    → List BillingEventLedgerRecord
    → Type 0
IsNewIn fact before after =
    (select_fact (has_event fact.billing_provider_key fact.external_event_id) before ≡ none)
    × (after ≡ before ++ row_to_record fact ∷ [])

-- The ledger held a row for the event of this fact, and is what it was.
abbrev pub IsReplayIn :
    BillingEventLedgerRecord
    → List BillingEventLedgerRecord
    → List BillingEventLedgerRecord
    → Type 0
IsReplayIn fact before after =
    ((old : BillingEventLedgerRecord) × (select_fact
          (has_event fact.billing_provider_key fact.external_event_id) before
        ≡ some old))
    × (after ≡ before)

abbrev pub IsBookedIn :
    BillingEventLedgerRecord
    → List BillingEventLedgerRecord
    → List BillingEventLedgerRecord
    → Type 0
IsBookedIn fact before after = IsNewIn fact before after ⊎ IsReplayIn fact before after

same-IsBookedIn :
    (fact : BillingEventLedgerRecord) {b b' a a' : List BillingEventLedgerRecord}
    → b' ≡ b
    → a' ≡ a
    → IsBookedIn fact b a
    → IsBookedIn fact b' a'
same-IsBookedIn fact same_before same_after booked = rw (same_before, same_after) booked

body-IsBookedIn :
    (unicode_word : ℕ → Bool) (fact : BillingEventLedgerRecord) (t : Tables)
    (result : IngestNormalizedBillingFactResult)
    → (ingest_in_transaction unicode_word fact t).0 ≡ ok result
    → IsBookedIn fact t.ledger (ingest_in_transaction unicode_word fact t).1.ledger
unfolding ingest_in_transaction append_or_get_in_connection
body-IsBookedIn unicode_word fact t result done =
    elim (Option-cases
      (select_fact (has_event fact.billing_provider_key fact.external_event_id) t.ledger)) [
        | inl new_event ↦ inl (new_event, ground (arith, done, new_event))
        | inr (old, found) ↦ inr ((old, found), ground (arith, done, found))
      ]

ingest_refused :
    (unicode_word : ℕ → Bool) (generated : String) (input : NormalizedBillingFactInput)
    (db : BillingDb) (result : IngestNormalizedBillingFactResult) (e : Exception)
    → build_ledger_record_for_ingest unicode_word generated input ≡ err e
    → (ingest_normalized_billing_fact unicode_word generated input db).0 ≡ ok result
    → ⊥
unfolding ingest_normalized_billing_fact
ingest_refused unicode_word generated input db result e bad done = ground (arith, bad, done)

-- An ingestion that returns has booked the fact of its input.
ingest-IsBookedIn :
    (unicode_word : ℕ → Bool) (generated : String) (input : NormalizedBillingFactInput)
    (db : BillingDb) (result : IngestNormalizedBillingFactResult)
    → (ingest_normalized_billing_fact unicode_word generated input db).0 ≡ ok result
    → (fact : BillingEventLedgerRecord) × ((build_ledger_record_for_ingest unicode_word generated
            input
          ≡ ok fact)
        × IsBookedIn fact db.tables.ledger
            (ingest_normalized_billing_fact unicode_word generated input db).1.tables.ledger)
ingest-IsBookedIn unicode_word generated input db result done =
    elim (Result-cases (build_ledger_record_for_ingest unicode_word generated input)) [
      | inl (e, bad) ↦
          let never : ⊥ = ingest_refused unicode_word generated input db result e bad done in
          elim never [ ]
      | inr (fact, fine) ↦
          let same = ingest-valid unicode_word generated input db fact fine in
          let (body, left) =
            transaction_ok (ingest_in_transaction unicode_word fact) db result
              (rw (sym same) done) in
          (fact, (fine, rw (same, left) (body-IsBookedIn unicode_word fact db.tables result body)))
    ]

-- Neither the apply nor the snapshot touches the ledger.
apply_by-ledger :
    (unicode_word : ℕ → Bool) (ref : String) (db : BillingDb)
    → (apply_by_internal_fact_ref unicode_word ref db).1.tables.ledger ≡ db.tables.ledger
apply_by-ledger unicode_word ref db = elim (Result-cases (validate_ref unicode_word ref)) [
  | inl (e, bad) ↦ rw (apply_by-invalid unicode_word ref db e bad) refl
  | inr (v, fine) ↦ elim (transaction_ends (apply_in_transaction ref) db) [
    | inl same ↦ rw (apply_by-valid unicode_word ref db v fine, same) refl
    | inr moved ↦
        rw (apply_by-valid unicode_word ref db v fine, moved, apply-settled ref db.tables)
          (apply-ledger ref db.tables)
  ]
]

and_then-ledger :
    {A B : Type 0} (first : Exec BillingDb A) (next : A → Exec BillingDb B)
    → ((db : BillingDb) → (first db).1.tables.ledger ≡ db.tables.ledger)
    → ((a : A) (db : BillingDb) → (next a db).1.tables.ledger ≡ db.tables.ledger)
    → (db : BillingDb) → (and_then first next db).1.tables.ledger ≡ db.tables.ledger
and_then-ledger first next keeps then_keeps db = elim (Result-cases (first db).0) [
  | inl (e, lost) ↦ ground (arith, lost, keeps db)
  | inr (a, won) ↦ ground (arith, won, keeps db, then_keeps a (first db).1)
]

and_then_split :
    {A B : Type 0} (first : Exec BillingDb A) (next : A → Exec BillingDb B) (db : BillingDb) (b : B)
    → (and_then first next db).0 ≡ ok b
    → (a : A) × (((first db).0 ≡ ok a) × (and_then first next db ≡ next a (first db).1))
and_then_split first next db b done = elim (Result-cases (first db).0) [
  | inl (e, lost) ↦ let never : ⊥ = ground (arith, done, lost) in elim never [ ]
  | inr (a, won) ↦ (a, (won, ground (arith, won)))
]

activate-ledger :
    (user : String) (until : Moment) (result : Uc05PostgresApplyResult) (db : BillingDb)
    → (activate user until result db).1.tables.ledger ≡ db.tables.ledger
activate-ledger user until result db = elim (Bool-cases (was_applied result)) [
  | inl applied ↦ ground (arith, applied, (upsert-tables (snapshot_until user until) db).0)
  | inr refused ↦ ground (arith, refused)
]

module _ (outside : Outside) (settings : FulfillmentIngressSettings) (has_notifier : Bool) where
  apply_stored-ledger :
      (user : String) (until : Moment) (ingested : IngestNormalizedBillingFactResult)
      (db : BillingDb)
      → (apply_stored outside settings has_notifier user until ingested db).1.tables.ledger
        ≡ db.tables.ledger
  apply_stored-ledger user until ingested =
      and_then-ledger
        (apply_by_internal_fact_ref outside.unicode_word ingested.stored.internal_fact_ref)
        (activate user until)
        (apply_by-ledger outside.unicode_word ingested.stored.internal_fact_ref)
        (activate-ledger user until)

  -- The fact of a payload and a user is booked.
  abbrev pub IsBooked : FulfillmentEventPayload → String → Call → BillingDb → BillingDb → Type 0
  IsBooked payload user call before after =
      (fact : BillingEventLedgerRecord) × ((build_ledger_record_for_ingest outside.unicode_word
            call.generated (ingest_input settings payload user call)
          ≡ ok fact)
        × IsBookedIn fact before.tables.ledger after.tables.ledger)

  pub apply_paid-IsBooked :
      (payload : FulfillmentEventPayload) (uid : ℕ) (user : String) (until : Moment) (call : Call)
      (db : BillingDb) (result : Uc05PostgresApplyResult)
      → (apply_paid outside settings has_notifier payload uid user until call db).0 ≡ ok result
      → IsBooked payload user call db
          (apply_paid outside settings has_notifier payload uid user until call db).1
  unfolding apply_paid
  apply_paid-IsBooked payload uid user until call db result done =
      let word = outside.unicode_word in
      let input = ingest_input settings payload user call in
      let (identity, (created, same)) =
        and_then_split (create_if_absent uid)
          (ingest_paid outside settings has_notifier payload user until call) db result done in
      let db1 : BillingDb = (create_if_absent uid db).1 in
      let (ingested, (taken, same1)) =
        and_then_split (ingest_normalized_billing_fact word call.generated input)
          (apply_stored outside settings has_notifier user until) db1 result
          (ap (λ (r : Result Uc05PostgresApplyResult × BillingDb). r.0) (sym same) ∙ done) in
      let db2 : BillingDb = (ingest_normalized_billing_fact word call.generated input db1).1 in
      let (fact, (fine, booked)) = ingest-IsBookedIn word call.generated input db1 ingested taken in
      let kept = apply_stored-ledger user until ingested db2 in
      let rest =
        ap (λ (r : Result Uc05PostgresApplyResult × BillingDb). r.1.tables.ledger) (same ∙ same1)
        ∙ kept in
      (fact, (fine, same-IsBookedIn fact (sym (create-tables uid db).0) rest booked))

  pub fulfill-IsBooked :
      (payload : FulfillmentEventPayload) (uid : ℕ) (user : String) (until : Moment) (call : Call)
      (s : Ingress)
      → (fulfill outside settings has_notifier payload uid user until call s).0 ≡ ok accepted
      → IsBooked payload user call s.db
          (fulfill outside settings has_notifier payload uid user until call s).1.db
  unfolding fulfill answer
  fulfill-IsBooked payload uid user until call s done =
      let calls = apply_paid outside settings has_notifier payload uid user until call in
      elim (Result-cases (calls s.db).0) [
        | inl (e, lost) ↦ let never : ⊥ = ground (arith, done, lost) in elim never [ ]
        | inr (result, won) ↦
            let (fact, (fine, booked)) =
              apply_paid-IsBooked payload uid user until call s.db result won in
            let same : (fulfill outside settings has_notifier payload uid user until call s).1.db
                ≡ (calls s.db).1 =
              ground (arith, won) in
            (
              fact,
              (
                fine,
                same-IsBookedIn fact refl (ap (λ (db : BillingDb). db.tables.ledger) same) booked,
              ),
            )
      ]
