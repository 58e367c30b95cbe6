-- ===== src/Domain.antt =====
-- backend/src/app/domain/status_view.py and backend/src/app/issuance/entitlement.py.
use startprojectformillion.Base.{Bool, true, false, ◌≡◌, ◌↔◌, Option, none, some, arith}
use startprojectformillion.Shared.{SafeUserStatusCategory, SubscriptionSnapshotState}

-- `snapshot in _BILLING_BACKED_ACTIVE`
billing_backed_active : SubscriptionSnapshotState → Bool
billing_backed_active SubscriptionSnapshotState.active = true
billing_backed_active _ = false

unfoldable pub map_subscription_status_view :
    Bool → Option SubscriptionSnapshotState → SafeUserStatusCategory
unfolding billing_backed_active
map_subscription_status_view false snapshot = SafeUserStatusCategory.needs_bootstrap
map_subscription_status_view true none = SafeUserStatusCategory.inactive_or_not_eligible
map_subscription_status_view true (some SubscriptionSnapshotState.absent) =
    SafeUserStatusCategory.inactive_or_not_eligible
map_subscription_status_view true (some snapshot) = elim (billing_backed_active snapshot) [
  | true ↦ SafeUserStatusCategory.subscription_active
  | false ↦ elim snapshot [
    | SubscriptionSnapshotState.needs_review ↦ SafeUserStatusCategory.needs_review
    | _ ↦ SafeUserStatusCategory.inactive_or_not_eligible
  ]
]

-- `category is SafeUserStatusCategory.SUBSCRIPTION_ACTIVE`
abbrev pub is_subscription_active : SafeUserStatusCategory → Bool
is_subscription_active SafeUserStatusCategory.subscription_active = true
is_subscription_active _ = false

-- The view shows an active subscription exactly for a known user with an active snapshot.
pub status_active_iff :
    (known : Bool) (snapshot : Option SubscriptionSnapshotState)
    → (map_subscription_status_view known snapshot ≡ SafeUserStatusCategory.subscription_active)
      ↔ ((known ≡ true) × (snapshot ≡ some SubscriptionSnapshotState.active))
unfolding map_subscription_status_view
status_active_iff known snapshot = ground arith
