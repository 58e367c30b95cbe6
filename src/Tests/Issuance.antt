-- ===== src/Tests/Issuance.antt =====
-- The issuance service at a concrete provider and database.
use startprojectformillion.Base.{
  ℕ, some, [], ◌∷◌, true, false, ◌≡◌, ◌≢◌, ◌⊎◌, inr, refl, arith, string_eq, pair_eq,
}
use startprojectformillion.Shared.{ok, SubscriptionSnapshotState}
use startprojectformillion.Shared.Correlation.{is_valid_correlation_id}
use startprojectformillion.Issuance.Contracts.{
  IssuanceOperationType, IssuanceOutcomeCategory, IssuanceRequest,
}
use startprojectformillion.Issuance.Memory.{
  World, LedgerEntry, LedgerState, validate_basics, fresh, plain, with_ref, is_revoked_entry,
}
use startprojectformillion.Issuance.Issue.{execute_issue}
use startprojectformillion.Issuance.Resend.{execute_resend}
use startprojectformillion.Issuance.Revoke.{execute_revoke}
use startprojectformillion.Issuance.Service.{execute}
use startprojectformillion.Issuance.Gate.{
  IsRefusal, OnlyAudited, gate_refuses, is_backed, delivery_is_backed,
}
use startprojectformillion.Issuance.Ledger.{IsConsistent, run, execute-IsConsistent}
use startprojectformillion.Issuance.Lifetime.{issued_entry, grants_once, revoke_is_final}
use startprojectformillion.Persistence.IssuanceState.{
  select_by_keys, fetch_by_issue_keys, issue_or_get, mark_revoked, is_secret_ref,
}
use startprojectformillion.Durable.{Surroundings}
use startprojectformillion.Durable.Mirror.{mirrored}
use startprojectformillion.Durable.Restart.{
  restarted, restart_grants_once, restart_keeps_revoked, ledger_is_mirrored,
}
use startprojectformillion.Tests.Setup.{
  counting, provider, store, start, issue_request, resend_request, revoke_request,
}

abbrev issued_world : World (Surroundings ℕ)
issued_world = run provider store (issue_request ∷ []) start

abbrev revoked_world : World (Surroundings ℕ)
revoked_world = run provider store (issue_request ∷ revoke_request ∷ []) start

abbrev entry : LedgerEntry
entry = issued_entry "ref-1"

abbrev gone : LedgerEntry
gone = record { issuance_ref = "ref-1"; state = LedgerState.revoked }

fresh-IsConsistent : IsConsistent fresh
fresh-IsConsistent k = refl

-- One ISSUE calls the provider once; with a REVOKE after it, twice.
issued-IsConsistent : IsConsistent issued_world.service
unfolding run
issued-IsConsistent = execute-IsConsistent provider store issue_request start fresh-IsConsistent

issued_held : issued_world.service.ledger ("u7", "issue-1") ≡ some entry
unfolding run execute validate_basics is_valid_correlation_id execute_issue execute_resend
    execute_revoke fetch_by_issue_keys select_by_keys issue_or_get mark_revoked is_secret_ref
issued_held = refl

revoked_held : revoked_world.service.ledger ("u7", "issue-1") ≡ some gone
unfolding run execute validate_basics is_valid_correlation_id execute_issue execute_resend
    execute_revoke fetch_by_issue_keys select_by_keys issue_or_get mark_revoked is_secret_ref
revoked_held = refl

provider_calls : (issued_world.env.outside ≡ 1) × (revoked_world.env.outside ≡ 2)
unfolding run execute validate_basics is_valid_correlation_id execute_issue execute_resend
    execute_revoke fetch_by_issue_keys select_by_keys issue_or_get mark_revoked is_secret_ref
provider_calls = (refl, refl)

issue_answer :
    (execute provider store issue_request start).0
    ≡ ok (with_ref IssuanceOutcomeCategory.issued (some "ref-1"))
unfolding run execute validate_basics is_valid_correlation_id execute_issue execute_resend
    execute_revoke fetch_by_issue_keys select_by_keys issue_or_get mark_revoked is_secret_ref
issue_answer = refl

resend_answer :
    (execute provider store resend_request issued_world).0
    ≡ ok (with_ref IssuanceOutcomeCategory.delivery_ready (some "how-to"))
unfolding run execute validate_basics is_valid_correlation_id execute_issue execute_resend
    execute_revoke fetch_by_issue_keys select_by_keys issue_or_get mark_revoked is_secret_ref
resend_answer = refl

revoke_answer :
    (execute provider store revoke_request issued_world).0
    ≡ ok (plain IssuanceOutcomeCategory.revoked)
unfolding run execute validate_basics is_valid_correlation_id execute_issue execute_resend
    execute_revoke fetch_by_issue_keys select_by_keys issue_or_get mark_revoked is_secret_ref
revoke_answer = refl

not_yet_revoked : issued_world.service.revoke_completed ("u7", "revoke-1") ≡ false
unfolding run execute validate_basics is_valid_correlation_id execute_issue execute_resend
    execute_revoke fetch_by_issue_keys select_by_keys issue_or_get mark_revoked is_secret_ref
not_yet_revoked = refl

restart_grants_once_example :
    let (r, w') = execute provider store issue_request (restarted issued_world) in
    (w'.env.outside ≡ issued_world.env.outside)
    × ((r ≡ ok (with_ref IssuanceOutcomeCategory.already_issued (some "ref-1"))) ⊎ IsRefusal r)
    × ((is_revoked_entry (some entry) ≡ false) ⊎ IsRefusal r)
restart_grants_once_example =
    restart_grants_once counting (issue_request ∷ []) start issue_request entry refl issued_held
      refl

restart_keeps_revoked_example :
    let (r, w') = execute provider store resend_request (restarted revoked_world) in
    (w'.env.outside ≡ revoked_world.env.outside)
    × ((r ≡ ok (plain IssuanceOutcomeCategory.revoked)) ⊎ IsRefusal r)
restart_keeps_revoked_example =
    restart_keeps_revoked counting (issue_request ∷ revoke_request ∷ []) start resend_request gone
      "issue-1" refl revoked_held refl refl refl

ledger_is_mirrored_example :
    mirrored gone (select_by_keys "u7" "issue-1" revoked_world.env.db.rows) ≡ true
ledger_is_mirrored_example =
    ledger_is_mirrored counting (issue_request ∷ revoke_request ∷ []) start "u7" "issue-1" gone refl
      revoked_held

grants_once_example :
    let first = (execute provider store issue_request start).1 in
    let later = run provider store (resend_request ∷ []) first in
    let (r, w') = execute provider store issue_request later in
    (w'.env ≡ later.env)
    × ((r ≡ ok (with_ref IssuanceOutcomeCategory.already_issued (some "ref-1"))) ⊎ IsRefusal r)
grants_once_example =
    grants_once provider store issue_request issue_request (resend_request ∷ []) start "ref-1"
      fresh-IsConsistent issue_answer refl refl refl

revoke_is_final_example :
    let later =
      run provider store
        (issue_request ∷ [])
        (execute provider store revoke_request issued_world).1 in
    let (r, w') = execute provider store resend_request later in
    (w'.env ≡ later.env) × ((r ≡ ok (plain IssuanceOutcomeCategory.revoked)) ⊎ IsRefusal r)
revoke_is_final_example =
    revoke_is_final provider store revoke_request resend_request (issue_request ∷ []) issued_world
      "issue-1" issued-IsConsistent refl refl not_yet_revoked revoke_answer refl (inr (refl, refl))

-- The same user without an active subscription.
abbrev unpaid_request : IssuanceRequest
unpaid_request = record issue_request {
  subscription_state = some SubscriptionSnapshotState.inactive;
}

issue_is_not_revoke : unpaid_request.operation ≢ IssuanceOperationType.revoke
issue_is_not_revoke h = ground arith

inactive_is_not_active : unpaid_request.subscription_state ≢ some SubscriptionSnapshotState.active
inactive_is_not_active h = ground arith

gate_refuses_example :
    let (r, w') = execute provider store unpaid_request start in IsRefusal r × OnlyAudited start w'
gate_refuses_example =
    gate_refuses provider store unpaid_request start issue_is_not_revoke inactive_is_not_active

delivery_is_backed_example :
    (resend_request.operation ≡ IssuanceOperationType.resend)
    × (resend_request.subscription_state ≡ some SubscriptionSnapshotState.active)
    × (is_backed provider store resend_request issued_world ≡ true)
delivery_is_backed_example =
    delivery_is_backed provider store resend_request issued_world (some "how-to") resend_answer

execute-IsConsistent_example : IsConsistent (execute provider store issue_request start).1.service
execute-IsConsistent_example =
    execute-IsConsistent provider store issue_request start fresh-IsConsistent
