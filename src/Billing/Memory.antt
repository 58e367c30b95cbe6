-- ===== src/Billing/Memory.antt =====
-- `InMemoryBillingEventsLedgerRepository`
-- (backend/src/app/persistence/billing_events_ledger_in_memory.py), the audit appender of
-- billing_ingestion_audit_contracts.py, and `IngestNormalizedBillingFactHandler`
-- (backend/src/app/application/billing_ingestion.py) over them.
pub mod Agrees
use startprojectformillion.Base.{
  ℕ, String, Bool, true, false, ◌&&◌, not, Option, none, some, List, [], ◌∷◌, ◌++◌, Dict, put,
  empty, pair_eq, string_eq, str_eq, if◌then◌else◌,
}
use startprojectformillion.Shared.{Exec, Result, ok, err}
use startprojectformillion.Billing.Facts.{
  BillingEventLedgerRecord, BillingEventLedgerStatus, BillingIngestionAuditRecord,
}
use startprojectformillion.Billing.Ingest.{
  NormalizedBillingFactInput, IngestNormalizedBillingFactResult, build_ledger_record_for_ingest,
  ingestion_audit_of,
}

pub record MemoryLedger : Type 0 where
  pub records : List BillingEventLedgerRecord
  pub by_provider_and_external_id : Dict (String × String) BillingEventLedgerRecord
  pub by_internal_fact_ref : Dict String BillingEventLedgerRecord

abbrev pub no_facts : MemoryLedger
no_facts = record {
  records = [];
  by_provider_and_external_id = empty;
  by_internal_fact_ref = empty;
}

unfoldable pub append_or_get :
    BillingEventLedgerRecord → MemoryLedger → BillingEventLedgerRecord × MemoryLedger
append_or_get fact m =
    let key : String × String = (fact.billing_provider_key, fact.external_event_id) in
    elim (m.by_provider_and_external_id key) [
      | some existing ↦ (existing, m)
      | none ↦ (
        fact,
        record {
          records = m.records ++ fact ∷ [];
          by_provider_and_external_id = put m.by_provider_and_external_id key fact;
          by_internal_fact_ref = put m.by_internal_fact_ref fact.internal_fact_ref fact;
        },
      )
    ]

pub data BillingFactsPresenceCategory : Type 0 where
  nothing has_accepted : BillingFactsPresenceCategory

pub record BillingEventsLedgerUserSummary : Type 0 where
  pub category : BillingFactsPresenceCategory
  pub internal_fact_refs : List String

abbrev pub is_accepted : BillingEventLedgerStatus → Bool
is_accepted BillingEventLedgerStatus.accepted = true
is_accepted _ = false

abbrev pub is_of : String → Option String → Bool
is_of user none = false
is_of user (some other) = str_eq other user

-- The references of the accepted facts of a user, in the order of the ledger.
unfoldable pub accepted_refs : String → List BillingEventLedgerRecord → List String
accepted_refs user [] = []
accepted_refs user (fact ∷ facts) =
    let rest = accepted_refs user facts in
    if is_of user fact.internal_user_id && is_accepted fact.status
    then fact.internal_fact_ref ∷ rest
    else rest

abbrev pub summary_of : List String → BillingEventsLedgerUserSummary
summary_of [] = record { category = BillingFactsPresenceCategory.nothing; internal_fact_refs = [] }
summary_of (ref ∷ refs) = record {
  category = BillingFactsPresenceCategory.has_accepted;
  internal_fact_refs = ref ∷ refs;
}

unfoldable pub get_user_billing_facts_summary :
    String → MemoryLedger → BillingEventsLedgerUserSummary
unfolding accepted_refs
get_user_billing_facts_summary user m = summary_of (accepted_refs user m.records)

-- The two stores that the handler is built with.
pub record Memory : Type 0 where
  pub ledger : MemoryLedger
  pub audit : List BillingIngestionAuditRecord

-- A replay is told by the reference: the record that is stored has another.
unfoldable pub handle_ingest :
    (ℕ → Bool) → String → NormalizedBillingFactInput → Exec Memory IngestNormalizedBillingFactResult
unfolding build_ledger_record_for_ingest append_or_get
handle_ingest unicode_word generated input m =
    elim (build_ledger_record_for_ingest unicode_word generated input) [
      | err e ↦ (err e, m)
      | ok constructed ↦
          let (stored, ledger') = append_or_get constructed m.ledger in
          let is_replay = not (str_eq stored.internal_fact_ref constructed.internal_fact_ref) in
          (
            ok (record { stored = stored; is_idempotent_replay = is_replay }),
            record {
              ledger = ledger';
              audit = m.audit ++ ingestion_audit_of unicode_word stored is_replay ∷ [];
            },
          )
    ]
