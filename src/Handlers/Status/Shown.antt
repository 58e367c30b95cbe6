-- ===== src/Handlers/Status/Shown.antt =====
-- What UC-02 shows, and from what.
use startprojectformillion.Base.{
  ℕ, String, true, false, Option, none, some, is_some, ◌≡◌, ◌≢◌, ◌⊎◌, ◌↔◌, arith,
}
use startprojectformillion.Shared.{
  Exec, ok, OperationOutcomeCategory, SafeUserStatusCategory, SubscriptionSnapshotState,
  state_of_value,
}
use startprojectformillion.Shared.Validation.{validate_telegram_user_id}
use startprojectformillion.Shared.Correlation.{require_correlation_id, is_valid_correlation_id}
use startprojectformillion.Domain.{map_subscription_status_view}
use startprojectformillion.Handlers.Ports.{Stores, IdentityRecord, SubscriptionSnapshot}
use startprojectformillion.Handlers.Status.{
  GetSubscriptionStatusInput, GetSubscriptionStatusResult, IssuanceCurrentStateRef, Lookup,
  snapshot_state_from_reader_label, status_raised, is_past, status_of_snapshot, status_of_access,
  status_of_identity, get_status,
}

-- A success shows no error; all else shows an error and nothing of a subscription.
abbrev pub IsStatus : GetSubscriptionStatusResult → Type 0
IsStatus r =
    (r.outcome ≡ OperationOutcomeCategory.success) × (r.user_safe ≡ none)
    ⊎ (r.outcome ≢ OperationOutcomeCategory.success)
      × (is_some r.user_safe ≡ true)
      × (r.active_until_utc ≡ none)
      × ((r.safe_status ≡ SafeUserStatusCategory.inactive_or_not_eligible)
          ⊎ (r.safe_status ≡ SafeUserStatusCategory.needs_bootstrap))

module _ {E : Type 0} (stores : Stores E) where
  -- Whatever the stores and the lookup do, an answer of UC-02 is a success without an error, or it
  -- names an error and shows neither a date nor any status but not eligible or not registered.
  pub get_status-IsStatus :
      (lookup : Lookup E) (inp : GetSubscriptionStatusInput) (now : ℕ) (env : E)
      → IsStatus (get_status stores lookup inp now env).0
  unfolding get_status status_of_identity status_of_access status_raised
  get_status-IsStatus lookup inp now env = ground arith

  -- For a valid call, a user that is found with a snapshot, and an issuance that is found, UC-02 shows
  -- that access is ready exactly if the snapshot is active, its time has not passed and the issuance
  -- is not revoked.
  pub access_ready_iff :
      (get_current : String → Exec E (Option IssuanceCurrentStateRef))
      (inp : GetSubscriptionStatusInput) (now : ℕ) (env : E) (uid : ℕ) (identity : IdentityRecord)
      (snap : SubscriptionSnapshot) (current : IssuanceCurrentStateRef)
      → validate_telegram_user_id inp.telegram_user_id ≡ ok uid
      → is_valid_correlation_id inp.correlation_id ≡ true
      → (stores.find_by_telegram_user_id uid env).0 ≡ ok (some identity)
      → let env1 = (stores.find_by_telegram_user_id uid env).1 in
        (stores.get_for_user identity.internal_user_id env1).0 ≡ ok (some snap)
        → (get_current identity.internal_user_id
            (stores.get_for_user identity.internal_user_id
              (stores.find_by_telegram_user_id uid env).1).1).0
          ≡ ok (some current)
        → ((get_status stores (some get_current) inp now env).0.safe_status
            ≡ SafeUserStatusCategory.subscription_active_access_ready)
          ↔ ((state_of_value snap.state_label ≡ some SubscriptionSnapshotState.active)
              × (is_past snap.active_until_utc now ≡ false)
              × (current.is_revoked ≡ false))
  unfolding get_status status_of_identity status_of_access status_of_snapshot
      snapshot_state_from_reader_label map_subscription_status_view require_correlation_id
  access_ready_iff get_current inp now env uid identity snap current valid cid found stored ref =
      ground arith
