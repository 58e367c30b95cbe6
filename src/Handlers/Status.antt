-- ===== src/Handlers/Status.antt =====
-- `GetSubscriptionStatusHandler` (backend/src/app/application/handlers.py).
pub mod Shown
use startprojectformillion.Base.{
  ℕ, String, Bool, true, false, ◌&&◌, Option, none, some, ltb, if◌then◌else◌, ◌≡◌, arith,
}
use startprojectformillion.Shared.{
  Exec, Exception, Result, ok, err, persistence_dependency_error, InternalErrorCategory,
  OperationOutcomeCategory, UserSafeErrorCode, SafeUserStatusCategory, SubscriptionSnapshotState,
  state_of_value, map_internal_to_user_safe,
}
use startprojectformillion.Shared.Validation.{ℤ, validate_telegram_user_id}
use startprojectformillion.Shared.Correlation.{require_correlation_id}
use startprojectformillion.Domain.{map_subscription_status_view, is_subscription_active}
use startprojectformillion.Handlers.Ports.{IdentityRecord, SubscriptionSnapshot, Stores}

pub record GetSubscriptionStatusInput : Type 0 where
  pub telegram_user_id : ℤ
  pub correlation_id : String

pub record GetSubscriptionStatusResult : Type 0 where
  pub outcome : OperationOutcomeCategory
  pub correlation_id : String
  pub safe_status : SafeUserStatusCategory
  pub user_safe : Option UserSafeErrorCode
  pub active_until_utc : Option ℕ

-- `IssuanceCurrentStateRef` of telegram_access_resend.py
pub record IssuanceCurrentStateRef : Type 0 where
  pub issue_idempotency_key : String
  pub is_revoked : Bool

-- `IssuanceStateForResendLookup.get_current_for_user`, where the lookup is configured.
abbrev pub Lookup : Type 0 → Type 0
Lookup E = Option (String → Exec E (Option IssuanceCurrentStateRef))

unfoldable pub snapshot_state_from_reader_label : String → SubscriptionSnapshotState
unfolding state_of_value
snapshot_state_from_reader_label label = elim (state_of_value label) [
  | some state ↦ state
  | none ↦ SubscriptionSnapshotState.inactive
]

abbrev pub status_refused :
    OperationOutcomeCategory
    → String
    → SafeUserStatusCategory
    → UserSafeErrorCode
    → GetSubscriptionStatusResult
status_refused outcome cid safe user_safe = record {
  outcome = outcome;
  correlation_id = cid;
  safe_status = safe;
  user_safe = some user_safe;
  active_until_utc = none;
}

abbrev pub status_success : String → SafeUserStatusCategory → Option ℕ → GetSubscriptionStatusResult
status_success cid safe active_until = record {
  outcome = OperationOutcomeCategory.success;
  correlation_id = cid;
  safe_status = safe;
  user_safe = none;
  active_until_utc = active_until;
}

-- The two `except` clauses that stand behind each call of a store.
unfoldable pub status_raised : String → Exception → GetSubscriptionStatusResult
unfolding map_internal_to_user_safe
status_raised cid (persistence_dependency_error category) =
    status_refused OperationOutcomeCategory.retryable_dependency cid
      SafeUserStatusCategory.inactive_or_not_eligible (map_internal_to_user_safe category)
status_raised cid _ =
    status_refused OperationOutcomeCategory.internal_failure cid
      SafeUserStatusCategory.inactive_or_not_eligible
      (map_internal_to_user_safe InternalErrorCategory.unknown)

-- `active_until_utc is not None and self._now_utc_provider() > active_until_utc`
abbrev pub is_past : Option ℕ → ℕ → Bool
is_past none now = false
is_past (some until) now = ltb until now

-- The snapshot's own part of the status.
unfoldable pub status_of_snapshot :
    Option SubscriptionSnapshot → ℕ → SafeUserStatusCategory × Option ℕ
unfolding snapshot_state_from_reader_label map_subscription_status_view
status_of_snapshot none now = (map_subscription_status_view true none, none)
status_of_snapshot (some snap) now =
    let safe =
      map_subscription_status_view true
        (some (snapshot_state_from_reader_label snap.state_label)) in
    (
      if is_subscription_active safe && is_past snap.active_until_utc now
          then SafeUserStatusCategory.subscription_expired
          else safe,
      snap.active_until_utc,
    )

module _ {E : Type 0} (stores : Stores E) (lookup : Lookup E) where
  -- The issuance's part, for a subscription that is active.
  unfoldable pub status_of_access : String → String → Option ℕ → E → GetSubscriptionStatusResult × E
  unfolding status_raised
  status_of_access cid internal_user_id active_until env = elim lookup [
    | none ↦ (
      status_success cid SafeUserStatusCategory.subscription_active_access_not_ready active_until,
      env,
    )
    | some get_current_for_user ↦
        let (current, env1) = get_current_for_user internal_user_id env in
        elim current [
          | err e ↦ (status_raised cid e, env1)
          | ok none ↦ (
            status_success cid SafeUserStatusCategory.subscription_active_access_not_ready
                active_until,
            env1,
          )
          | ok (some ref) ↦ (
            status_success cid
                (if ref.is_revoked
                  then SafeUserStatusCategory.subscription_active_access_not_ready
                  else SafeUserStatusCategory.subscription_active_access_ready)
                active_until,
            env1,
          )
        ]
  ]

  -- From the identity on.
  unfoldable pub status_of_identity :
      String → ℕ → IdentityRecord → E → GetSubscriptionStatusResult × E
  unfolding status_raised status_of_snapshot status_of_access
  status_of_identity cid now identity env =
      let (snap, env1) = stores.get_for_user identity.internal_user_id env in
      elim snap [
        | err e ↦ (status_raised cid e, env1)
        | ok found ↦
            let (safe, active_until) = status_of_snapshot found now in
            if is_subscription_active safe
            then status_of_access cid identity.internal_user_id active_until env1
            else (status_success cid safe active_until, env1)
      ]

  -- `GetSubscriptionStatusHandler.handle`, with what the clock shows.
  unfoldable pub get_status : GetSubscriptionStatusInput → ℕ → E → GetSubscriptionStatusResult × E
  unfolding validate_telegram_user_id require_correlation_id status_raised status_of_identity
  get_status inp now env =
      let cid = inp.correlation_id in
      let invalid : GetSubscriptionStatusResult =
        status_refused OperationOutcomeCategory.validation_failure cid
          SafeUserStatusCategory.inactive_or_not_eligible UserSafeErrorCode.invalid_input in
      elim (validate_telegram_user_id inp.telegram_user_id) [
        | err e ↦ (invalid, env)
        | ok uid ↦ elim (require_correlation_id cid) [
          | err e ↦ (invalid, env)
          | ok c ↦
              let (found, env1) = stores.find_by_telegram_user_id uid env in
              elim found [
                | err e ↦ (status_raised cid e, env1)
                | ok none ↦ (
                  status_refused OperationOutcomeCategory.not_found cid
                      SafeUserStatusCategory.needs_bootstrap UserSafeErrorCode.not_registered,
                  env1,
                )
                | ok (some identity) ↦ status_of_identity cid now identity env1
              ]
        ]
      ]
