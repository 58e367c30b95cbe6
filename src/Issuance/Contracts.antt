-- ===== src/Issuance/Contracts.antt =====
-- backend/src/app/issuance/contracts.py, operational_state.py and entitlement.py, and
-- backend/src/app/persistence/issuance_state_record.py.
use startprojectformillion.Base.{ℕ, String, Bool, Option, some}
use startprojectformillion.Shared.{SubscriptionSnapshotState, Exec}
use startprojectformillion.Domain.{map_subscription_status_view, is_subscription_active}

pub data IssuanceOperationType : Type 0 where
  issue resend revoke : IssuanceOperationType

pub data IssuanceOutcomeCategory : Type 0 where
  not_entitled needs_review provider_unavailable provider_rejected : IssuanceOutcomeCategory
  already_issued revoked unsafe_to_deliver internal_error : IssuanceOutcomeCategory
  issued delivery_ready : IssuanceOutcomeCategory

pub record IssuanceRequest : Type 0 where
  pub internal_user_id : String
  pub subscription_state : Option SubscriptionSnapshotState
  pub operation : IssuanceOperationType
  pub idempotency_key : String
  pub correlation_id : String
  pub link_issue_idempotency_key : Option String

pub record IssuanceServiceResult : Type 0 where
  pub category : IssuanceOutcomeCategory
  pub safe_ref : Option String

pub record IssuanceAuditRecord : Type 0 where
  pub operation : IssuanceOperationType
  pub outcome : IssuanceOutcomeCategory
  pub internal_user_id : String
  pub correlation_id : String
  pub idempotency_key : String
  pub link_issue_idempotency_key : Option String

pub data CreateAccessOutcome : Type 0 where
  success unavailable rejected unknown : CreateAccessOutcome

pub data RevokeAccessOutcome : Type 0 where
  revoked already_revoked unavailable rejected unknown : RevokeAccessOutcome

pub data GetSafeInstructionOutcome : Type 0 where
  ready unavailable rejected unknown : GetSafeInstructionOutcome

pub record ProviderCreateResult : Type 0 where
  pub outcome : CreateAccessOutcome
  pub issuance_ref : Option String

pub record ProviderGetSafeResult : Type 0 where
  pub outcome : GetSafeInstructionOutcome
  pub instruction_ref : Option String

pub record ProviderRevokeResult : Type 0 where
  pub outcome : RevokeAccessOutcome

-- A provider is not part of the repository: a call may raise, and may change the surroundings `E`.
-- The arguments stand in the order of the keyword arguments.
pub record IssuanceProviderPort (E : Type 0) : Type 0 where
  pub create_or_ensure_access : String → String → String → Exec E ProviderCreateResult
  pub revoke_access : String → String → String → String → Exec E ProviderRevokeResult
  pub get_safe_delivery_instructions : String → String → String → Exec E ProviderGetSafeResult

pub data IssuanceStatePersistence : Type 0 where
  issued revoked : IssuanceStatePersistence

pub record IssuanceStateRow : Type 0 where
  pub internal_user_id : String
  pub issue_idempotency_key : String
  pub state : IssuanceStatePersistence
  pub provider_issuance_ref : String
  pub created_at : ℕ
  pub updated_at : ℕ
  pub revoked_at : Option ℕ

-- The durable state, as the service sees it.
pub record IssuanceOperationalStatePort (E : Type 0) : Type 0 where
  pub fetch_by_issue_keys : String → String → Exec E (Option IssuanceStateRow)
  pub issue_or_get : String → String → String → Exec E IssuanceStateRow
  pub mark_revoked : String → String → Exec E (Option IssuanceStateRow)

unfoldable pub subscription_allows_issue_resend : Option SubscriptionSnapshotState → Bool
unfolding map_subscription_status_view
subscription_allows_issue_resend snapshot =
    is_subscription_active (map_subscription_status_view Bool.true snapshot)

unfoldable pub issue_resend_denial_category :
    Option SubscriptionSnapshotState → IssuanceOutcomeCategory
issue_resend_denial_category (some SubscriptionSnapshotState.needs_review) =
    IssuanceOutcomeCategory.needs_review
issue_resend_denial_category _ = IssuanceOutcomeCategory.not_entitled
