-- ===== src/Billing/Tables.antt =====
-- The Postgres tables that billing uses (backend/migrations), and one transaction over them. The server
-- is not part of the repository: each statement is modelled by what its SQL says of the rows. The
-- faults of the connection are an explicit sequence, one for each transaction; a statement that
-- fails within one rolls it back, which is `refused` too.
pub mod Rows
pub mod Ends
use startprojectformillion.Base.{
  ℕ, String, Bool, true, false, ◌&&◌, Option, none, some, List, [], ◌∷◌, ◌++◌, Dict, put, empty,
  if◌then◌else◌, str_eq, is_some, string_eq, nat_eq, str_nat, string_append,
}
use startprojectformillion.Shared.{
  Exec, Result, ok, err, persistence_dependency_error, InternalErrorCategory,
}
use startprojectformillion.Handlers.Ports.{SubscriptionSnapshot, IdentityRecord}
use startprojectformillion.Persistence.IssuanceState.{Fault}
use startprojectformillion.Billing.Facts.{
  BillingEventAmountCurrency, BillingEventLedgerRecord, BillingIngestionAuditRecord,
  BillingSubscriptionApplyAuditRecord, BillingSubscriptionApplyOutcome,
}

-- A row of `billing_subscription_apply_records`
pub record ApplyRow : Type 0 where
  pub internal_fact_ref : String
  pub internal_user_id : String
  pub apply_outcome : BillingSubscriptionApplyOutcome

pub record Tables : Type 0 where
  pub ledger : List BillingEventLedgerRecord
  pub ingestion_audit : List BillingIngestionAuditRecord
  pub apply_records : List ApplyRow
  pub apply_audit : List BillingSubscriptionApplyAuditRecord
  pub snapshots : Dict String SubscriptionSnapshot
  pub identities : Dict ℕ String

abbrev pub no_rows : Tables
no_rows = record {
  ledger = [];
  ingestion_audit = [];
  apply_records = [];
  apply_audit = [];
  snapshots = empty;
  identities = empty;
}

pub record BillingDb : Type 0 where
  pub tables : Tables
  -- what the next transactions meet; past the end every transaction goes through
  pub faults : List Fault

abbrev pub transient : {A : Type 0} → Result A
transient = err (persistence_dependency_error InternalErrorCategory.persistence_transient)

abbrev pub next_fault : List Fault → Fault
next_fault [] = Fault.up
next_fault (f ∷ fs) = f

abbrev pub rest_faults : List Fault → List Fault
rest_faults [] = []
rest_faults (f ∷ fs) = fs

-- `async with conn.transaction()`: a body that raises is rolled back.
unfoldable pub transaction : {A : Type 0} → (Tables → Result A × Tables) → Exec BillingDb A
transaction body db =
    let (r, tables') = body db.tables in
    let later : List Fault = rest_faults db.faults in
    elim r [
      | err e ↦ elim (next_fault db.faults) [
        | Fault.up ↦ (err e, record db { faults = later })
        | Fault.refused ↦ (transient, record db { faults = later })
        | Fault.reply_lost ↦ (transient, record db { faults = later })
      ]
      | ok a ↦ elim (next_fault db.faults) [
        | Fault.up ↦ (ok a, record { tables = tables'; faults = later })
        | Fault.refused ↦ (transient, record db { faults = later })
        | Fault.reply_lost ↦ (transient, record { tables = tables'; faults = later })
      ]
    ]

-- `_UPSERT_STATE` of postgres_subscription_snapshot.py
unfoldable pub upsert_state_in_connection : SubscriptionSnapshot → Tables → Tables
upsert_state_in_connection snapshot t = record t {
  snapshots = put t.snapshots snapshot.internal_user_id snapshot;
}

unfoldable pub upsert_state : SubscriptionSnapshot → Exec BillingDb Unit
unfolding transaction upsert_state_in_connection
upsert_state snapshot = transaction (λ t. (ok tt, upsert_state_in_connection snapshot t))

abbrev pub has_ref : String → BillingEventLedgerRecord → Bool
has_ref ref fact = str_eq fact.internal_fact_ref ref

abbrev pub has_event : String → String → BillingEventLedgerRecord → Bool
has_event provider event fact =
    str_eq fact.billing_provider_key provider && str_eq fact.external_event_id event

-- `_SELECT_BY_INTERNAL_FACT_REF`, `_SELECT_BY_PROVIDER_EXTERNAL`: keys, so at most one row fits.
unfoldable pub select_fact :
    (BillingEventLedgerRecord → Bool)
    → List BillingEventLedgerRecord
    → Option BillingEventLedgerRecord
select_fact fits [] = none
select_fact fits (fact ∷ facts) = if fits fact then some fact else select_fact fits facts

-- `_amount_currency_from_row` of the columns that `_insert_params` writes
abbrev pub amount_from_row : Option BillingEventAmountCurrency → Option BillingEventAmountCurrency
amount_from_row none = none
amount_from_row (some amount) =
    if is_some amount.amount_minor_units
    then some amount
    else if is_some amount.currency_code
    then some amount
    else none

-- What comes back of a record that was written. A time comes back as the same instant, in UTC: its offset,
-- which `==` of two times ignores, is kept here.
unfoldable pub row_to_record : BillingEventLedgerRecord → BillingEventLedgerRecord
row_to_record fact = record fact { amount_currency = amount_from_row fact.amount_currency }

-- `append_or_get_in_connection`: whether the row is new. A second row with the same primary key is a
-- unique violation, a `PostgresError`.
unfoldable pub append_or_get_in_connection :
    BillingEventLedgerRecord → Tables → Result (BillingEventLedgerRecord × Bool) × Tables
unfolding select_fact row_to_record
append_or_get_in_connection fact t =
    elim (select_fact (has_event fact.billing_provider_key fact.external_event_id) t.ledger) [
      | some old ↦ (ok (old, false), t)
      | none ↦
          if is_some (select_fact (has_ref fact.internal_fact_ref) t.ledger)
          then (transient, t)
          else (
            ok (row_to_record fact, true),
            record t { ledger = t.ledger ++ row_to_record fact ∷ [] },
          )
    ]

-- `_SELECT_APPLY`
unfoldable pub select_apply : String → List ApplyRow → Option ApplyRow
select_apply ref [] = none
select_apply ref (row ∷ rows) =
    if str_eq row.internal_fact_ref ref then some row else select_apply ref rows

-- `internal_user_id_for_telegram`, `_map_to_internal_user_id`
unfoldable pub internal_user_id_for_telegram : ℕ → String
unfolding str_nat
internal_user_id_for_telegram telegram_user_id = string_append "u" (str_nat telegram_user_id)

-- `_UPSERT` of postgres_user_identity.py, one statement: inserts the row unless there is one, and
-- selects it. No two of the texts that it writes are equal, so they stay unique.
unfoldable pub create_if_absent : ℕ → Exec BillingDb IdentityRecord
unfolding transaction internal_user_id_for_telegram
create_if_absent telegram_user_id = transaction (λ t.
    let found : String → IdentityRecord =
      λ internal. record { internal_user_id = internal; telegram_user_id = telegram_user_id } in
    elim (t.identities telegram_user_id) [
      | some internal ↦ (ok (found internal), t)
      | none ↦
          let internal = internal_user_id_for_telegram telegram_user_id in
          (
            ok (found internal),
            record t { identities = put t.identities telegram_user_id internal },
          )
    ])
