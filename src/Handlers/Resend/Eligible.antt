-- ===== src/Handlers/Resend/Eligible.antt =====
-- Whom the access resend handler serves.
use startprojectformillion.Base.{String, true, false, some, ◌≡◌, ◌≢◌, ◌⊎◌, inl, inr, arith}
use startprojectformillion.Shared.{ok, SubscriptionSnapshotState, state_of_value}
use startprojectformillion.Shared.Correlation.{require_correlation_id, is_valid_correlation_id}
use startprojectformillion.Handlers.Ports.{IdentityRecord, SubscriptionSnapshot}
use startprojectformillion.Handlers.Status.{snapshot_state_from_reader_label, is_past}
use startprojectformillion.Handlers.Resend.{
  TelegramAccessResendOutcome, TelegramAccessResendInput, TelegramAccessResendResult, ResendParts,
  without_key, revoke_expired, resend_allowed, handle_resend, build_telegram_resend_idempotency_key,
}
use startprojectformillion.Handlers.Resend.Ended.{EndsAccess, revoke-EndsAccess}

state-cases :
    (label : String)
    → (state_of_value label ≡ some SubscriptionSnapshotState.active)
      ⊎ (state_of_value label ≢ some SubscriptionSnapshotState.active)
state-cases label = ground arith

module _ {E : Type 0} (parts : ResendParts E) where
  -- The call of a user whose snapshot is not active.
  inactive_lem :
      (inp : TelegramAccessResendInput) (env : E) (identity : IdentityRecord)
      (snap : SubscriptionSnapshot)
      → parts.enabled ≡ true
      → is_valid_correlation_id inp.correlation_id ≡ true
      → (parts.find_identity inp.telegram_user_id env).0 ≡ ok (some identity)
      → (parts.get_snapshot identity.internal_user_id
          (parts.find_identity inp.telegram_user_id env).1).0
        ≡ ok (some snap)
      → state_of_value snap.state_label ≢ some SubscriptionSnapshotState.active
      → let env2 =
          (parts.get_snapshot identity.internal_user_id
            (parts.find_identity inp.telegram_user_id env).1).1 in
        ((handle_resend parts inp env).0
          ≡ ok (without_key TelegramAccessResendOutcome.not_eligible inp.correlation_id))
        × ((handle_resend parts inp env).1 ≡ env2)
  unfolding handle_resend require_correlation_id snapshot_state_from_reader_label
  inactive_lem inp env identity snap on valid found stored other = ground arith

  -- The call of a user whose snapshot is active for a time that has passed.
  expired_lem :
      (inp : TelegramAccessResendInput) (env : E) (identity : IdentityRecord)
      (snap : SubscriptionSnapshot)
      → parts.enabled ≡ true
      → is_valid_correlation_id inp.correlation_id ≡ true
      → (parts.find_identity inp.telegram_user_id env).0 ≡ ok (some identity)
      → (parts.get_snapshot identity.internal_user_id
          (parts.find_identity inp.telegram_user_id env).1).0
        ≡ ok (some snap)
      → state_of_value snap.state_label ≡ some SubscriptionSnapshotState.active
      → is_past snap.active_until_utc parts.now_utc ≡ true
      → let env2 =
          (parts.get_snapshot identity.internal_user_id
            (parts.find_identity inp.telegram_user_id env).1).1 in
        ((handle_resend parts inp env).0
          ≡ ok (without_key TelegramAccessResendOutcome.not_eligible inp.correlation_id))
        × ((handle_resend parts inp env).1 ≡ revoke_expired parts identity.internal_user_id env2)
  unfolding handle_resend require_correlation_id snapshot_state_from_reader_label
  expired_lem inp env identity snap on valid found stored active past = ground arith

  past_of :
      (snap : SubscriptionSnapshot)
      → state_of_value snap.state_label ≡ some SubscriptionSnapshotState.active
      → (state_of_value snap.state_label ≢ some SubscriptionSnapshotState.active)
        ⊎ (is_past snap.active_until_utc parts.now_utc ≡ true)
      → is_past snap.active_until_utc parts.now_utc ≡ true
  past_of snap active (inl other) = elim (other active) [ ]
  past_of snap active (inr past) = past

  -- In an enabled handler, a valid call of a user whose snapshot is not active, or is active for a
  -- time that has passed, is answered NOT_ELIGIBLE. Where the snapshot is not active, the call leaves
  -- what the reads left. Where its time has passed, and the handler is built with the lookup and the
  -- mutation of issuances, the current issuance is looked up after them and, if it is found and not
  -- revoked yet, marked as revoked; whatever the lookup or the mutation raises is dropped.
  pub unpaid_is_not_eligible :
      (inp : TelegramAccessResendInput) (env : E) (identity : IdentityRecord)
      (snap : SubscriptionSnapshot)
      → parts.enabled ≡ true
      → is_valid_correlation_id inp.correlation_id ≡ true
      → (parts.find_identity inp.telegram_user_id env).0 ≡ ok (some identity)
      → (parts.get_snapshot identity.internal_user_id
          (parts.find_identity inp.telegram_user_id env).1).0
        ≡ ok (some snap)
      → (state_of_value snap.state_label ≢ some SubscriptionSnapshotState.active)
        ⊎ (is_past snap.active_until_utc parts.now_utc ≡ true)
      → let env2 =
          (parts.get_snapshot identity.internal_user_id
            (parts.find_identity inp.telegram_user_id env).1).1 in
        let (r, env') = handle_resend parts inp env in
        (r ≡ ok (without_key TelegramAccessResendOutcome.not_eligible inp.correlation_id))
        × (((state_of_value snap.state_label ≢ some SubscriptionSnapshotState.active)
              × (env' ≡ env2))
            ⊎ ((state_of_value snap.state_label ≡ some SubscriptionSnapshotState.active)
                × EndsAccess parts identity.internal_user_id env2 env'))
  unpaid_is_not_eligible inp env identity snap on valid found stored unpaid =
      elim (state-cases snap.state_label) [
        | inl active ↦
            let (answer, same) =
              expired_lem inp env identity snap on valid found stored active
                (past_of snap active unpaid) in
            (answer, inr (active, rw same (revoke-EndsAccess parts identity.internal_user_id _)))
        | inr other ↦
            let (answer, same) = inactive_lem inp env identity snap on valid found stored other in
            (answer, inl (other, same))
      ]

  -- For a user that is found with a snapshot, RESEND_ACCEPTED is answered only by an enabled handler
  -- to a call with a valid correlation id, and only if the snapshot is active and its time has not
  -- passed; the answer has the key of the user and the update.
  pub accepted_is_paid :
      (inp : TelegramAccessResendInput) (env : E) (r : TelegramAccessResendResult)
      (identity : IdentityRecord) (snap : SubscriptionSnapshot)
      → (parts.find_identity inp.telegram_user_id env).0 ≡ ok (some identity)
      → (parts.get_snapshot identity.internal_user_id
          (parts.find_identity inp.telegram_user_id env).1).0
        ≡ ok (some snap)
      → (handle_resend parts inp env).0 ≡ ok r
      → r.outcome ≡ TelegramAccessResendOutcome.resend_accepted
      → (parts.enabled ≡ true)
        × (is_valid_correlation_id inp.correlation_id ≡ true)
        × (state_of_value snap.state_label ≡ some SubscriptionSnapshotState.active)
        × (is_past snap.active_until_utc parts.now_utc ≡ false)
        × (r.resend_idempotency_key
            ≡ some
                (build_telegram_resend_idempotency_key inp.telegram_user_id inp.telegram_update_id))
  unfolding handle_resend require_correlation_id resend_allowed snapshot_state_from_reader_label
  accepted_is_paid inp env r identity snap found stored answered accepted = ground arith
