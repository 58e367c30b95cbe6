-- ===== src/Handlers/Bootstrap.antt =====
-- `BootstrapIdentityHandler` (backend/src/app/application/handlers.py).
pub mod Answers
pub mod Grants
pub mod Registered
use startprojectformillion.Base.{ℕ, String, Bool, true, false, Option, none, some, if◌then◌else◌}
use startprojectformillion.Shared.{
  Exec, Exception, Result, ok, err, persistence_dependency_error, InternalErrorCategory,
  OperationOutcomeCategory, UserSafeErrorCode, SubscriptionSnapshotState, state_value,
  map_internal_to_user_safe,
}
use startprojectformillion.Shared.Validation.{
  ℤ, validate_telegram_user_id, validate_telegram_update_id,
}
use startprojectformillion.Shared.Correlation.{require_correlation_id}
use startprojectformillion.Handlers.Ports.{
  IdentityRecord, IdempotencyRecord, SubscriptionSnapshot, AuditEvent, Stores,
  build_bootstrap_idempotency_key,
}

pub record BootstrapIdentityInput : Type 0 where
  pub telegram_user_id : ℤ
  pub telegram_update_id : ℤ
  pub correlation_id : String

pub record BootstrapIdentityResult : Type 0 where
  pub outcome : OperationOutcomeCategory
  pub correlation_id : String
  pub internal_user_id : Option String
  pub user_safe : Option UserSafeErrorCode
  pub idempotent_replay : Bool
  pub uc01_idempotency_key : Option String

abbrev pub invalid_bootstrap : String → BootstrapIdentityResult
invalid_bootstrap cid = record {
  outcome = OperationOutcomeCategory.validation_failure;
  correlation_id = cid;
  internal_user_id = none;
  user_safe = some UserSafeErrorCode.invalid_input;
  idempotent_replay = false;
  uc01_idempotency_key = none;
}

unfoldable pub bootstrap_failure :
    String → OperationOutcomeCategory → InternalErrorCategory → BootstrapIdentityResult
unfolding map_internal_to_user_safe
bootstrap_failure cid outcome internal = record {
  outcome = outcome;
  correlation_id = cid;
  internal_user_id = none;
  user_safe = some (map_internal_to_user_safe internal);
  idempotent_replay = false;
  uc01_idempotency_key = none;
}

-- The two `except` clauses that stand behind each call of a store.
unfoldable pub bootstrap_raised : String → Exception → BootstrapIdentityResult
unfolding bootstrap_failure
bootstrap_raised cid (persistence_dependency_error category) =
    bootstrap_failure cid OperationOutcomeCategory.retryable_dependency category
bootstrap_raised cid _ =
    bootstrap_failure cid OperationOutcomeCategory.internal_failure InternalErrorCategory.unknown

abbrev pub bootstrap_success : String → IdentityRecord → Bool → String → BootstrapIdentityResult
bootstrap_success cid identity replay idem_key = record {
  outcome = OperationOutcomeCategory.success;
  correlation_id = cid;
  internal_user_id = some identity.internal_user_id;
  user_safe = none;
  idempotent_replay = replay;
  uc01_idempotency_key = some idem_key;
}

abbrev pub bootstrap_event : String → AuditEvent
bootstrap_event cid = record {
  correlation_id = cid;
  operation = "uc01_bootstrap_identity";
  outcome = OperationOutcomeCategory.success;
  internal_category = none;
}

-- The validated numbers of the input.
unfoldable pub validate_bootstrap : BootstrapIdentityInput → Result ℕ
unfolding validate_telegram_user_id validate_telegram_update_id require_correlation_id
validate_bootstrap inp = elim (validate_telegram_user_id inp.telegram_user_id) [
  | err e ↦ err e
  | ok uid ↦ elim (validate_telegram_update_id inp.telegram_update_id) [
    | err e ↦ err e
    | ok u ↦ elim (require_correlation_id inp.correlation_id) [ err e ↦ err e | ok cid ↦ ok uid ]
  ]
]

module _ {E : Type 0} (stores : Stores E) where
  unfoldable pub put_default_snapshot_if_absent :
      String → String → E → Option BootstrapIdentityResult × E
  unfolding bootstrap_raised state_value
  put_default_snapshot_if_absent cid internal_user_id env =
      let snapshot : SubscriptionSnapshot = record {
        internal_user_id = internal_user_id;
        state_label = state_value SubscriptionSnapshotState.inactive;
        active_until_utc = none;
      } in
      let (put, env1) = stores.put_if_absent snapshot env in
      elim put [ err e ↦ (some (bootstrap_raised cid e), env1) | ok u ↦ (none, env1) ]

  -- `if record.completed:`
  unfoldable pub bootstrap_replayed : String → ℕ → String → E → BootstrapIdentityResult × E
  unfolding bootstrap_raised bootstrap_failure put_default_snapshot_if_absent
  bootstrap_replayed cid uid idem_key env =
      let (found, env1) = stores.find_by_telegram_user_id uid env in
      elim found [
        | err e ↦ (bootstrap_raised cid e, env1)
        | ok none ↦ (
          bootstrap_failure cid OperationOutcomeCategory.internal_failure
              InternalErrorCategory.persistence_invariant,
          env1,
        )
        | ok (some identity) ↦
            let (failed, env2) =
              put_default_snapshot_if_absent cid identity.internal_user_id env1 in
            elim failed [
              | some failure ↦ (failure, env2)
              | none ↦ (bootstrap_success cid identity true idem_key, env2)
            ]
      ]

  -- From `create_if_absent` to the end.
  unfoldable pub bootstrap_created : String → ℕ → String → E → BootstrapIdentityResult × E
  unfolding bootstrap_raised put_default_snapshot_if_absent
  bootstrap_created cid uid idem_key env =
      let (created, env1) = stores.create_if_absent uid env in
      elim created [
        | err e ↦ (bootstrap_raised cid e, env1)
        | ok identity ↦
            let (failed, env2) =
              put_default_snapshot_if_absent cid identity.internal_user_id env1 in
            elim failed [
              | some failure ↦ (failure, env2)
              | none ↦
                  let (appended, env3) = stores.append (bootstrap_event cid) env2 in
                  elim appended [
                    | err e ↦ (bootstrap_raised cid e, env3)
                    | ok u ↦
                        let (completed, env4) = stores.complete idem_key env3 in
                        elim completed [
                          | err e ↦ (bootstrap_raised cid e, env4)
                          | ok v ↦ (bootstrap_success cid identity false idem_key, env4)
                        ]
                  ]
            ]
      ]

  -- `BootstrapIdentityHandler.handle`; `hexdigest` is the SHA-256 of hashlib.
  unfoldable pub bootstrap :
      (String → String) → BootstrapIdentityInput → E → BootstrapIdentityResult × E
  unfolding validate_bootstrap build_bootstrap_idempotency_key bootstrap_replayed bootstrap_created
      bootstrap_raised
  bootstrap hexdigest inp env =
      let cid = inp.correlation_id in
      elim (validate_bootstrap inp) [
        | err e ↦ (invalid_bootstrap cid, env)
        | ok uid ↦
            elim (build_bootstrap_idempotency_key hexdigest inp.telegram_user_id
              inp.telegram_update_id) [
                | err e ↦ (invalid_bootstrap cid, env)
                | ok idem_key ↦
                    let (begun, env1) = stores.begin_or_get idem_key env in
                    elim begun [
                      | err e ↦ (bootstrap_raised cid e, env1)
                      | ok rec ↦
                          if rec.completed
                          then bootstrap_replayed cid uid idem_key env1
                          else bootstrap_created cid uid idem_key env1
                    ]
              ]
      ]
