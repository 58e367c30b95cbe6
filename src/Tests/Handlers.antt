-- ===== src/Tests/Handlers.antt =====
-- The UC-01 and UC-02 handlers over the stores in memory.
use startprojectformillion.Base.{
  String, true, false, Option, none, some, [], ◌≡◌, ◌↔◌, refl, str_nat,
}
use startprojectformillion.Shared.{
  Exec, ok, OperationOutcomeCategory, SafeUserStatusCategory, SubscriptionSnapshotState,
  state_of_value,
}
use startprojectformillion.Shared.Validation.{
  pos, validate_telegram_user_id, validate_telegram_update_id,
}
use startprojectformillion.Shared.Correlation.{
  sample_id, is_valid_correlation_id, require_correlation_id, sample_id_valid,
}
use startprojectformillion.Handlers.Ports.{SubscriptionSnapshot, build_bootstrap_idempotency_key}
use startprojectformillion.Handlers.Memory.{
  MemoryStores, memory_stores, no_stores, identity_of, find_by_telegram_user_id, create_if_absent,
  begin_or_get, complete, append, get_for_user, put_if_absent,
}
use startprojectformillion.Handlers.Bootstrap.{
  BootstrapIdentityInput, validate_bootstrap, bootstrap,
}
use startprojectformillion.Handlers.Bootstrap.Answers.{IsAnswer, bootstrap_answers}
use startprojectformillion.Handlers.Bootstrap.Grants.{Grants, bootstrap-Grants}
use startprojectformillion.Handlers.Bootstrap.Registered.{bootstrap_replay}
use startprojectformillion.Handlers.Status.{
  GetSubscriptionStatusInput, IssuanceCurrentStateRef, get_status, is_past,
}
use startprojectformillion.Handlers.Status.Shown.{IsStatus, get_status-IsStatus, access_ready_iff}

-- A digest that is its input, for short inputs.
abbrev same_text : String → String
same_text s = s

abbrev inp : BootstrapIdentityInput
inp = record { telegram_user_id = pos 7; telegram_update_id = pos 40; correlation_id = sample_id }

abbrev asked : GetSubscriptionStatusInput
asked = record { telegram_user_id = pos 7; correlation_id = sample_id }

abbrev paid : SubscriptionSnapshot
paid = record { internal_user_id = "u7"; state_label = "active"; active_until_utc = some 900 }

abbrev current : IssuanceCurrentStateRef
current = record { issue_idempotency_key = "issue-1"; is_revoked = false }

abbrev get_current : String → Exec MemoryStores (Option IssuanceCurrentStateRef)
get_current user m = (ok (some current), m)

abbrev one_paid : MemoryStores
one_paid = record {
  telegram_to_internal = λ id. some "u7";
  completed_by_key = λ k. none;
  by_internal_user = λ user. some paid;
  events = [];
}

first_succeeds :
    (bootstrap memory_stores same_text inp no_stores).0.outcome ≡ OperationOutcomeCategory.success
unfolding bootstrap validate_bootstrap validate_telegram_user_id validate_telegram_update_id
    require_correlation_id is_valid_correlation_id build_bootstrap_idempotency_key begin_or_get
    create_if_absent put_if_absent append complete str_nat
first_succeeds = refl

valid_user : validate_telegram_user_id asked.telegram_user_id ≡ ok 7
unfolding validate_telegram_user_id
valid_user = refl

found : (find_by_telegram_user_id 7 one_paid).0 ≡ ok (some (identity_of 7 "u7"))
unfolding find_by_telegram_user_id
found = refl

stored : (get_for_user "u7" (find_by_telegram_user_id 7 one_paid).1).0 ≡ ok (some paid)
unfolding get_for_user find_by_telegram_user_id
stored = refl

bootstrap_replay_example :
    let (r, m') = bootstrap memory_stores same_text inp no_stores in
    let (again, m2) = bootstrap memory_stores same_text inp m' in
    (again.outcome ≡ OperationOutcomeCategory.success)
    × (again.idempotent_replay ≡ true)
    × (again.internal_user_id ≡ r.internal_user_id)
    × (again.uc01_idempotency_key ≡ r.uc01_idempotency_key)
    × (m2 ≡ m')
bootstrap_replay_example = bootstrap_replay same_text inp no_stores first_succeeds

bootstrap-Grants_example : Grants no_stores (bootstrap memory_stores same_text inp no_stores).1 "u7"
bootstrap-Grants_example = bootstrap-Grants same_text inp no_stores "u7"

bootstrap_answers_run :
    let r = (bootstrap memory_stores same_text inp no_stores).0 in
    IsAnswer r × (r.correlation_id ≡ sample_id)
bootstrap_answers_run = bootstrap_answers memory_stores same_text inp no_stores

access_ready_iff_example :
    ((get_status memory_stores (some get_current) asked 500 one_paid).0.safe_status
      ≡ SafeUserStatusCategory.subscription_active_access_ready)
    ↔ ((state_of_value paid.state_label ≡ some SubscriptionSnapshotState.active)
        × (is_past paid.active_until_utc 500 ≡ false)
        × (current.is_revoked ≡ false))
access_ready_iff_example =
    access_ready_iff memory_stores get_current asked 500 one_paid 7 (identity_of 7 "u7") paid
      current valid_user sample_id_valid found stored refl

get_status-IsStatus_run : IsStatus (get_status memory_stores none asked 500 no_stores).0
get_status-IsStatus_run = get_status-IsStatus memory_stores none asked 500 no_stores
