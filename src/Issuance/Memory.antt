-- ===== src/Issuance/Memory.antt =====
-- The process-local state of `IssuanceService` and the methods that only touch it
-- (backend/src/app/issuance/service.py).
use startprojectformillion.Base.{
  String, Bool, true, false, Option, none, some, List, [], ◌∷◌, ◌++◌, Dict, empty, put, remove,
  KeySet, empty_set, if◌then◌else◌, not, string_eq, pair_eq,
}
use startprojectformillion.Shared.{Exec, ok}
use startprojectformillion.Shared.Correlation.{is_valid_correlation_id}
use startprojectformillion.Issuance.Contracts.{
  IssuanceOperationType, IssuanceOutcomeCategory, IssuanceRequest, IssuanceServiceResult,
  IssuanceAuditRecord, IssuanceStateRow, IssuanceStatePersistence,
}

pub data LedgerState : Type 0 where
  issued revoked : LedgerState

pub record LedgerEntry : Type 0 where
  pub issuance_ref : String
  pub state : LedgerState

abbrev pub LedgerKey : Type 0
LedgerKey = String × String

-- `_provider` and `_operational_state` are the section parameters of `Service`.
pub record ServiceState : Type 0 where
  pub ledger : Dict LedgerKey LedgerEntry
  pub issue_idempotent_result : Dict LedgerKey IssuanceServiceResult
  pub revoke_completed : KeySet LedgerKey
  pub resend_cached : Dict LedgerKey String
  pub audit : List IssuanceAuditRecord

-- A fresh service, and what `clear_in_memory_state` leaves.
abbrev pub fresh : ServiceState
fresh = record {
  ledger = empty;
  issue_idempotent_result = empty;
  revoke_completed = empty_set;
  resend_cached = empty;
  audit = [];
}

-- The service together with the surroundings that its provider and its store act on.
pub record World (E : Type 0) : Type 0 where
  pub service : ServiceState
  pub env : E

abbrev pub audit_record : IssuanceRequest → IssuanceOutcomeCategory → IssuanceAuditRecord
audit_record request category = record {
  operation = request.operation;
  outcome = category;
  internal_user_id = request.internal_user_id;
  correlation_id = request.correlation_id;
  idempotency_key = request.idempotency_key;
  link_issue_idempotency_key = request.link_issue_idempotency_key;
}

unfoldable pub append_audit :
    IssuanceRequest → IssuanceOutcomeCategory → ServiceState → ServiceState
append_audit request category s = record s { audit = s.audit ++ audit_record request category ∷ [] }

-- `not text`
abbrev pub is_empty : String → Bool
is_empty String.[] = true
is_empty (String.◌∷◌ c s) = false

-- `not text` where the text may be `None`
abbrev pub is_empty_or_none : Option String → Bool
is_empty_or_none none = true
is_empty_or_none (some s) = is_empty s

abbrev is_issue : IssuanceOperationType → Bool
is_issue IssuanceOperationType.issue = true
is_issue _ = false

abbrev is_none : Option String → Bool
is_none none = true
is_none (some s) = false

unfoldable pub validate_basics : IssuanceRequest → Option IssuanceOutcomeCategory
validate_basics request =
    if is_empty request.idempotency_key
    then some IssuanceOutcomeCategory.internal_error
    else if not (is_valid_correlation_id request.correlation_id)
    then some IssuanceOutcomeCategory.internal_error
    else if is_issue request.operation
    then (if is_none request.link_issue_idempotency_key
        then none
        else some IssuanceOutcomeCategory.internal_error)
    else if is_empty_or_none request.link_issue_idempotency_key
    then some IssuanceOutcomeCategory.internal_error
    else none

unfoldable pub sync_issued_memory : LedgerKey → String → ServiceState → ServiceState
sync_issued_memory lk ref s = record s {
  ledger = put s.ledger lk (record { issuance_ref = ref; state = LedgerState.issued });
  issue_idempotent_result =
      put s.issue_idempotent_result lk
        (record { category = IssuanceOutcomeCategory.issued; safe_ref = some ref });
}

unfoldable pub sync_from_durable_issued_row :
    LedgerKey → IssuanceStateRow → ServiceState → ServiceState
unfolding sync_issued_memory
sync_from_durable_issued_row lk row = sync_issued_memory lk row.provider_issuance_ref

unfoldable pub sync_revoked_memory : LedgerKey → String → ServiceState → ServiceState
sync_revoked_memory lk ref s = record s {
  ledger = put s.ledger lk (record { issuance_ref = ref; state = LedgerState.revoked });
  issue_idempotent_result = remove s.issue_idempotent_result lk;
}

-- `_ok`
unfoldable pub finish :
    {E : Type 0} → IssuanceRequest → IssuanceServiceResult → Exec (World E) IssuanceServiceResult
unfolding append_audit
finish request result w =
    (ok result, record w { service = append_audit request result.category w.service })

unfoldable pub persist_fail : {E : Type 0} → IssuanceRequest → Exec (World E) IssuanceServiceResult
unfolding finish
persist_fail request =
    finish request (record { category = IssuanceOutcomeCategory.internal_error; safe_ref = none })

abbrev pub plain : IssuanceOutcomeCategory → IssuanceServiceResult
plain category = record { category = category; safe_ref = none }

abbrev pub with_ref : IssuanceOutcomeCategory → Option String → IssuanceServiceResult
with_ref category ref = record { category = category; safe_ref = ref }

-- `entry is not None and entry.state is _LedgerState.REVOKED`
abbrev pub is_revoked_entry : Option LedgerEntry → Bool
is_revoked_entry none = false
is_revoked_entry (some entry) = elim entry.state [
  | LedgerState.issued ↦ false
  | LedgerState.revoked ↦ true
]

abbrev pub is_revoked_row : IssuanceStateRow → Bool
is_revoked_row row = elim row.state [
  | IssuanceStatePersistence.issued ↦ false
  | IssuanceStatePersistence.revoked ↦ true
]

abbrev pub entry_of_row : IssuanceStateRow → LedgerEntry
entry_of_row row = record { issuance_ref = row.provider_issuance_ref; state = LedgerState.issued }
