-- ===== src/Billing/Memory/Agrees.antt =====
-- The ingestion in memory against the one over Postgres.
use startprojectformillion.Base.{
  ℕ, String, Bool, true, false, not, none, some, List, [], ◌∷◌, ◌++◌, ◌≡◌, inl, inr, refl, ◌∙◌,
  arith, pair_eq, string_eq, str_eq, eq_iff, eq_refl, Option-cases,
}
use startprojectformillion.Shared.{ok}
use startprojectformillion.Billing.Facts.{BillingEventLedgerRecord}
use startprojectformillion.Billing.Tables.{
  Tables, BillingDb, select_fact, has_event, has_ref, append_or_get_in_connection, row_to_record,
}
use startprojectformillion.Billing.Tables.Rows.{select_fact-append, select_fact-misses}
use startprojectformillion.Billing.Tables.Ends.{transaction_up}
use startprojectformillion.Billing.Ingest.{
  NormalizedBillingFactInput, IngestNormalizedBillingFactResult, build_ledger_record_for_ingest,
  ingest_in_transaction, ingest_normalized_billing_fact, ingestion_audit_of,
}
use startprojectformillion.Billing.Steps.Kept.{ingest-valid}
use startprojectformillion.Billing.Memory.{MemoryLedger, Memory, append_or_get, handle_ingest}

-- The ledger in memory holds what the table holds, under both keys.
abbrev pub IsMirror : MemoryLedger → List BillingEventLedgerRecord → Type 0
IsMirror m facts =
    (m.records ≡ facts)
    × ((provider event : String)
        → m.by_provider_and_external_id (provider, event)
          ≡ select_fact (has_event provider event) facts)
    × ((ref : String) → m.by_internal_fact_ref ref ≡ select_fact (has_ref ref) facts)

-- A fact whose event and reference are new is appended to both.
append_new :
    (fact : BillingEventLedgerRecord) (m : MemoryLedger) (facts : List BillingEventLedgerRecord)
    → IsMirror m facts
    → select_fact (has_event fact.billing_provider_key fact.external_event_id) facts ≡ none
    → select_fact (has_ref fact.internal_fact_ref) facts ≡ none
    → IsMirror (append_or_get fact m).1 (facts ++ fact ∷ [])
unfolding append_or_get
append_new fact m facts (same, events, refs) new_event new_ref =
    let provider = fact.billing_provider_key in
    let event = fact.external_event_id in
    (
      ground (arith, same, events provider event, new_event),
      (λ p e. ground (
        arith,
        events provider event,
        events p e,
        new_event,
        select_fact-append (has_event p e) facts fact,
        eq_iff provider p,
        eq_iff event e,
      )),
      (λ r. ground (
        arith,
        events provider event,
        refs r,
        new_event,
        new_ref,
        select_fact-append (has_ref r) facts fact,
        eq_iff fact.internal_fact_ref r,
      )),
    )

-- What is in memory agrees with the tables.
abbrev pub IsMirrored : Memory → Tables → Type 0
IsMirrored m t = IsMirror m.ledger t.ledger × (m.audit ≡ t.ingestion_audit)

memory_old :
    (fact old : BillingEventLedgerRecord) (m : MemoryLedger)
    → m.by_provider_and_external_id (fact.billing_provider_key, fact.external_event_id) ≡ some old
    → append_or_get fact m ≡ (old, m)
unfolding append_or_get
memory_old fact old m found = rw (found, append_or_get)

memory_new :
    (fact : BillingEventLedgerRecord) (m : MemoryLedger)
    → m.by_provider_and_external_id (fact.billing_provider_key, fact.external_event_id) ≡ none
    → (append_or_get fact m).0 ≡ fact
unfolding append_or_get
memory_new fact m new = rw (new, append_or_get)

table_old :
    (fact old : BillingEventLedgerRecord) (t : Tables)
    → select_fact (has_event fact.billing_provider_key fact.external_event_id) t.ledger ≡ some old
    → append_or_get_in_connection fact t ≡ (ok (old, false), t)
unfolding append_or_get_in_connection
table_old fact old t found = rw (found, append_or_get_in_connection)

table_new :
    (fact : BillingEventLedgerRecord) (t : Tables)
    → select_fact (has_event fact.billing_provider_key fact.external_event_id) t.ledger ≡ none
    → select_fact (has_ref fact.internal_fact_ref) t.ledger ≡ none
    → row_to_record fact ≡ fact
    → append_or_get_in_connection fact t
      ≡ (ok (fact, true), record t { ledger = t.ledger ++ fact ∷ [] })
unfolding append_or_get_in_connection
table_new fact t new_event new_ref plain = ground (arith, new_event, new_ref, plain)

-- The appends, of a fact that comes back from the table as it went in, and whose reference is new.
append_agrees :
    (fact : BillingEventLedgerRecord) (m : MemoryLedger) (t : Tables)
    → IsMirror m t.ledger
    → row_to_record fact ≡ fact
    → select_fact (has_ref fact.internal_fact_ref) t.ledger ≡ none
    → let (stored, m') = append_or_get fact m in
      let (r, t') = append_or_get_in_connection fact t in
      (r ≡ ok (stored, str_eq stored.internal_fact_ref fact.internal_fact_ref))
      × IsMirror m' t'.ledger
      × (t'.ingestion_audit ≡ t.ingestion_audit)
unfolding append_or_get append_or_get_in_connection
append_agrees fact m t mirror plain new_ref =
    let provider = fact.billing_provider_key in
    let event = fact.external_event_id in
    let here = mirror.1 provider event in
    elim (Option-cases (select_fact (has_event provider event) t.ledger)) [
      | inl new ↦
          rw
            (
              table_new fact t new new_ref plain,
              memory_new fact m (here ∙ new),
              eq_refl fact.internal_fact_ref,
            )
            (refl, append_new fact m t.ledger mirror new new_ref, refl)
      | inr (old, found) ↦
          let other =
            select_fact-misses (has_event provider event) (has_ref fact.internal_fact_ref) t.ledger
              old found new_ref in
          rw (table_old fact old t found, memory_old fact old m (here ∙ found), other)
            (refl, mirror, refl)
    ]

memory_handled :
    (unicode_word : ℕ → Bool) (generated : String) (input : NormalizedBillingFactInput)
    (fact : BillingEventLedgerRecord) (m : Memory)
    → build_ledger_record_for_ingest unicode_word generated input ≡ ok fact
    → let (stored, ledger') = append_or_get fact m.ledger in
      let is_replay = not (str_eq stored.internal_fact_ref fact.internal_fact_ref) in
      handle_ingest unicode_word generated input m ≡ (
        ok (record { stored = stored; is_idempotent_replay = is_replay }),
        record {
          ledger = ledger';
          audit = m.audit ++ ingestion_audit_of unicode_word stored is_replay ∷ [];
        },
      )
unfolding handle_ingest
memory_handled unicode_word generated input fact m fine = rw (fine, handle_ingest)

table_ingested :
    (unicode_word : ℕ → Bool) (fact stored : BillingEventLedgerRecord) (inserted_new : Bool)
    (t : Tables)
    → (append_or_get_in_connection fact t).0 ≡ ok (stored, inserted_new)
    → let t1 = (append_or_get_in_connection fact t).1 in
      ingest_in_transaction unicode_word fact t ≡ (
        ok (record { stored = stored; is_idempotent_replay = not inserted_new }),
        record t1 {
          ingestion_audit =
              t1.ingestion_audit ++ ingestion_audit_of unicode_word stored (not inserted_new) ∷ [];
        },
      )
unfolding ingest_in_transaction
table_ingested unicode_word fact stored inserted_new t done = ground (arith, done)

-- The two ingestions agree. Let a ledger and an audit list in memory hold what the Postgres tables
-- hold. For a valid event whose reference is not in the ledger, and whose amount is none or has a
-- value, the handler over the memory and the atomic ingestion, when its transaction goes through,
-- return the same record and the same mark of a replay, and memory and tables hold the same facts,
-- under both keys, and the same audit rows again.
pub ingest_agrees :
    (unicode_word : ℕ → Bool) (generated : String) (input : NormalizedBillingFactInput)
    (fact : BillingEventLedgerRecord) (m : Memory) (db : BillingDb)
    → build_ledger_record_for_ingest unicode_word generated input ≡ ok fact
    → IsMirrored m db.tables
    → row_to_record fact ≡ fact
    → select_fact (has_ref fact.internal_fact_ref) db.tables.ledger ≡ none
    → db.faults ≡ []
    → let (r, m') = handle_ingest unicode_word generated input m in
      let (r', db') = ingest_normalized_billing_fact unicode_word generated input db in
      (r' ≡ r) × IsMirrored m' db'.tables
ingest_agrees unicode_word generated input fact m db fine (mirror, audits) plain new_ref up =
    let body = ingest_in_transaction unicode_word fact in
    let stored : BillingEventLedgerRecord = (append_or_get fact m.ledger).0 in
    let is_new : Bool = str_eq stored.internal_fact_ref fact.internal_fact_ref in
    let (done, mirror', kept) = append_agrees fact m.ledger db.tables mirror plain new_ref in
    let ends = table_ingested unicode_word fact stored is_new db.tables done in
    let result : IngestNormalizedBillingFactResult = record {
      stored = stored;
      is_idempotent_replay = not is_new;
    } in
    let (won, left, after) = transaction_up body db result up (rw ends refl) in
    rw
      (
        memory_handled unicode_word generated input fact m fine,
        ingest-valid unicode_word generated input db fact fine,
        won,
        left,
        ends,
        kept,
        audits,
      )
      (refl, (mirror', refl))
