-- ===== src/Tests/Resend.antt =====
-- The access resend handler over a counter of the calls of its service.
use startprojectformillion.Base.{none, ℕ, ◌+◌, true, false, some, ◌≡◌, ◌≢◌, ◌⊎◌, inr, refl, str_nat}
use startprojectformillion.Shared.{ok, SubscriptionSnapshotState, state_of_value}
use startprojectformillion.Shared.Correlation.{
  sample_id, sample_id_valid, is_valid_correlation_id, require_correlation_id,
}
use startprojectformillion.Shared.Validation.{pos}
use startprojectformillion.Issuance.Contracts.{IssuanceOutcomeCategory}
use startprojectformillion.Issuance.Memory.{with_ref}
use startprojectformillion.Handlers.Ports.{SubscriptionSnapshot}
use startprojectformillion.Handlers.Memory.{identity_of}
use startprojectformillion.Handlers.Status.{is_past, snapshot_state_from_reader_label}
use startprojectformillion.Handlers.Resend.{
  TelegramAccessResendOutcome, TelegramAccessResendInput, TelegramAccessResendResult, ResendParts,
  without_key, revoke_expired, resend_allowed, handle_resend, build_telegram_resend_idempotency_key,
}
use startprojectformillion.Handlers.Resend.Ended.{EndsAccess}
use startprojectformillion.Handlers.Resend.Eligible.{unpaid_is_not_eligible, accepted_is_paid}

abbrev paid_until_900 : SubscriptionSnapshot
paid_until_900 = record {
  internal_user_id = "u7";
  state_label = "active";
  active_until_utc = some 900;
}

abbrev parts_at : ℕ → ResendParts ℕ
parts_at now = record {
  find_identity = λ id calls. (ok (some (identity_of 7 "u7")), calls);
  get_snapshot = λ user calls. (ok (some paid_until_900), calls);
  issuance_service = some (λ req calls.
      (ok (with_ref IssuanceOutcomeCategory.delivery_ready (some "how-to")), calls + 1));
  issuance_state_lookup = some (λ user calls.
      (ok (some (record { issue_idempotency_key = "issue-1"; is_revoked = false })), calls));
  issuance_state_mutation = some (λ user link calls. (ok tt, calls + 10));
  consume_cooldown = λ user now calls. (ok true, calls);
  record_disabled_hit = λ source calls. (ok tt, calls);
  enabled = true;
  now_seconds = now;
  now_utc = now;
}

abbrev asked : TelegramAccessResendInput
asked = record {
  telegram_user_id = pos 7;
  telegram_update_id = pos 40;
  correlation_id = sample_id;
  source_command = none;
}

abbrev accepted : TelegramAccessResendResult
accepted = record {
  outcome = TelegramAccessResendOutcome.resend_accepted;
  correlation_id = sample_id;
  resend_idempotency_key = some "tg-resend:7:40";
}

accepted_at_500 : (handle_resend (parts_at 500) asked 0).0 ≡ ok accepted
unfolding handle_resend require_correlation_id is_valid_correlation_id
    snapshot_state_from_reader_label resend_allowed build_telegram_resend_idempotency_key str_nat
accepted_at_500 = refl

accepted_is_paid_example :
    ((parts_at 500).enabled ≡ true)
    × (is_valid_correlation_id sample_id ≡ true)
    × (state_of_value "active" ≡ some SubscriptionSnapshotState.active)
    × (is_past (some 900) 500 ≡ false)
    × (some "tg-resend:7:40" ≡ some (build_telegram_resend_idempotency_key (pos 7) (pos 40)))
accepted_is_paid_example =
    accepted_is_paid (parts_at 500) asked 0 accepted (identity_of 7 "u7") paid_until_900 refl refl
      accepted_at_500 refl

-- The revoke of the expired access counts ten.
revoked_at_950 : (handle_resend (parts_at 950) asked 0).1 ≡ 10
unfolding handle_resend require_correlation_id is_valid_correlation_id
    snapshot_state_from_reader_label revoke_expired
revoked_at_950 = refl

unpaid_is_not_eligible_example :
    let (r, env') = handle_resend (parts_at 950) asked 0 in
    (r ≡ ok (without_key TelegramAccessResendOutcome.not_eligible sample_id))
    × (((state_of_value "active" ≢ some SubscriptionSnapshotState.active) × (env' ≡ 0))
        ⊎ ((state_of_value "active" ≡ some SubscriptionSnapshotState.active)
            × EndsAccess (parts_at 950) "u7" 0 env'))
unpaid_is_not_eligible_example =
    unpaid_is_not_eligible (parts_at 950) asked 0 (identity_of 7 "u7") paid_until_900 refl
      sample_id_valid refl refl (inr refl)
