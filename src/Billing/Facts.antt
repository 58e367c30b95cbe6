-- ===== src/Billing/Facts.antt =====
-- backend/src/app/persistence/billing_events_ledger_contracts.py, billing_ingestion_audit_contracts.py
-- and billing_subscription_apply_contracts.py, and the UC-05 decision of
-- backend/src/app/domain/uc05_apply_decision.py and billing_apply_rules.py.
use startprojectformillion.Base.{
  ◌≡◌, refl, ℕ, String, Bool, Option, none, some, if◌then◌else◌, str_eq, no_text,
}
use startprojectformillion.Shared.{SubscriptionSnapshotState, state_value}
use startprojectformillion.Shared.Validation.{ℤ}

-- A point of time with its offset: what its clock on the wall shows, and the same in UTC, in
-- microseconds from the start of the year 1.
pub record Moment : Type 0 where
  pub wall : ℕ
  pub utc : ℕ

-- A `datetime`, with or without an offset.
pub data DateTime : Type 0 where
  naive : ℕ → DateTime
  aware : Moment → DateTime

pub record BillingEventAmountCurrency : Type 0 where
  pub amount_minor_units : Option ℤ
  pub currency_code : Option String

pub data BillingEventLedgerStatus : Type 0 where
  accepted duplicate ignored : BillingEventLedgerStatus

abbrev pub status_value : BillingEventLedgerStatus → String
status_value BillingEventLedgerStatus.accepted = "accepted"
status_value BillingEventLedgerStatus.duplicate = "duplicate"
status_value BillingEventLedgerStatus.ignored = "ignored"

pub record BillingEventLedgerRecord : Type 0 where
  pub internal_fact_ref : String
  pub billing_provider_key : String
  pub external_event_id : String
  pub event_type : String
  pub event_effective_at : Moment
  pub event_received_at : Moment
  pub internal_user_id : Option String
  pub checkout_attempt_id : Option String
  pub amount_currency : Option BillingEventAmountCurrency
  pub status : BillingEventLedgerStatus
  pub ingestion_correlation_id : String

pub record BillingIngestionAuditRecord : Type 0 where
  pub internal_fact_ref : String
  pub billing_provider_key : String
  pub external_event_id : String
  pub ingestion_correlation_id : String
  pub operation : String
  pub outcome : String
  pub billing_event_status : String
  pub is_idempotent_replay : Bool

pub data BillingSubscriptionApplyOutcome : Type 0 where
  active_applied no_activation needs_review : BillingSubscriptionApplyOutcome

pub data BillingSubscriptionApplyReason : Type 0 where
  ok ledger_status_not_accepted unknown_event_type : BillingSubscriptionApplyReason
  missing_internal_user no_state_change : BillingSubscriptionApplyReason

pub record BillingSubscriptionApplyAuditRecord : Type 0 where
  pub internal_fact_ref : String
  pub internal_user_id : Option String
  pub billing_provider_key : String
  pub external_event_id : String
  pub event_type : String
  pub billing_event_status : String
  pub apply_outcome : BillingSubscriptionApplyOutcome
  pub reason : BillingSubscriptionApplyReason

pub record Uc05PersistInstruction : Type 0 where
  pub internal_fact_ref : String
  pub record_internal_user_id : String
  pub apply_outcome : BillingSubscriptionApplyOutcome
  pub reason : BillingSubscriptionApplyReason
  pub snapshot_state_label : Option String
  pub audit_internal_user_id : Option String
  pub billing_provider_key : String
  pub external_event_id : String
  pub event_type : String
  pub billing_event_status : String

abbrev pub no_user_sentinel : String
no_user_sentinel = "_uc05_no_internal_user_"

-- `event_type in UC05_ALLOWLISTED_EVENT_TYPES`
abbrev pub is_allowlisted : String → Bool
is_allowlisted event_type = str_eq event_type "subscription_activated"

abbrev pub user_or_sentinel : Option String → String
user_or_sentinel none = no_user_sentinel
user_or_sentinel (some user) = user

-- The fields that every branch copies from the fact.
abbrev pub instruction :
    BillingEventLedgerRecord
    → String
    → BillingSubscriptionApplyOutcome
    → BillingSubscriptionApplyReason
    → Option String
    → Option String
    → Uc05PersistInstruction
instruction fact user outcome reason label audit_user = record {
  internal_fact_ref = fact.internal_fact_ref;
  record_internal_user_id = user;
  apply_outcome = outcome;
  reason = reason;
  snapshot_state_label = label;
  audit_internal_user_id = audit_user;
  billing_provider_key = fact.billing_provider_key;
  external_event_id = fact.external_event_id;
  event_type = fact.event_type;
  billing_event_status = status_value fact.status;
}

abbrev pub missing_user : BillingEventLedgerRecord → Uc05PersistInstruction
missing_user fact =
    instruction fact no_user_sentinel BillingSubscriptionApplyOutcome.needs_review
      BillingSubscriptionApplyReason.missing_internal_user none none

abbrev pub not_accepted : BillingEventLedgerRecord → Uc05PersistInstruction
not_accepted fact =
    instruction fact (user_or_sentinel fact.internal_user_id)
      BillingSubscriptionApplyOutcome.no_activation
      BillingSubscriptionApplyReason.ledger_status_not_accepted none fact.internal_user_id

abbrev pub for_user : BillingEventLedgerRecord → String → Uc05PersistInstruction
for_user fact uid =
    if is_allowlisted fact.event_type
    then instruction fact uid BillingSubscriptionApplyOutcome.active_applied
        BillingSubscriptionApplyReason.ok (some "active") (some uid)
    else instruction fact uid BillingSubscriptionApplyOutcome.needs_review
        BillingSubscriptionApplyReason.unknown_event_type (some "needs_review") (some uid)

unfoldable pub first_time_decision : BillingEventLedgerRecord → Uc05PersistInstruction
first_time_decision fact = elim fact.status [
  | BillingEventLedgerStatus.duplicate ↦ not_accepted fact
  | BillingEventLedgerStatus.ignored ↦ not_accepted fact
  | BillingEventLedgerStatus.accepted ↦ elim fact.internal_user_id [
    | none ↦ missing_user fact
    | some uid ↦ if no_text uid then missing_user fact else for_user fact uid
  ]
]

-- The labels are the values of the states.
labels :
    (state_value SubscriptionSnapshotState.active ≡ "active")
    × (state_value SubscriptionSnapshotState.needs_review ≡ "needs_review")
unfolding state_value
labels = (refl, refl)
