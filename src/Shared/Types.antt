-- ===== src/Shared/Types.antt =====
-- backend/src/app/shared/types.py
use startprojectformillion.Base.{String, Option, none, some, if◌then◌else◌, str_eq}

pub data OperationOutcomeCategory : Type 0 where
  success validation_failure idempotent_noop not_found : OperationOutcomeCategory
  retryable_dependency internal_failure : OperationOutcomeCategory

pub data SafeUserStatusCategory : Type 0 where
  needs_bootstrap inactive_or_not_eligible needs_review : SafeUserStatusCategory
  subscription_expired subscription_active : SafeUserStatusCategory
  subscription_active_access_not_ready : SafeUserStatusCategory
  subscription_active_access_ready : SafeUserStatusCategory

pub data SubscriptionSnapshotState : Type 0 where
  absent inactive not_eligible needs_review active : SubscriptionSnapshotState

-- `.value` of a member
unfoldable pub state_value : SubscriptionSnapshotState → String
state_value SubscriptionSnapshotState.absent = "absent"
state_value SubscriptionSnapshotState.inactive = "inactive"
state_value SubscriptionSnapshotState.not_eligible = "not_eligible"
state_value SubscriptionSnapshotState.needs_review = "needs_review"
state_value SubscriptionSnapshotState.active = "active"

-- `SubscriptionSnapshotState(label)`; `none` is the `ValueError`.
unfoldable pub state_of_value : String → Option SubscriptionSnapshotState
state_of_value s =
    if str_eq s "absent"
    then some SubscriptionSnapshotState.absent
    else if str_eq s "inactive"
    then some SubscriptionSnapshotState.inactive
    else if str_eq s "not_eligible"
    then some SubscriptionSnapshotState.not_eligible
    else if str_eq s "needs_review"
    then some SubscriptionSnapshotState.needs_review
    else if str_eq s "active"
    then some SubscriptionSnapshotState.active
    else none
