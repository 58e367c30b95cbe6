-- ===== src/Handlers/Resend.antt =====
-- `TelegramAccessResendHandler` (backend/src/app/application/telegram_access_resend.py). The clocks
-- are read once: `now_seconds` and `now_utc` are numbers.
pub mod Ended
pub mod Eligible
use startprojectformillion.Base.{
  ℕ, ◌+◌, String, Bool, true, false, not, Option, none, some, if◌then◌else◌, str_nat, string_append,
}
use startprojectformillion.Shared.{Exec, Result, ok, err, SubscriptionSnapshotState}
use startprojectformillion.Shared.Correlation.{require_correlation_id}
use startprojectformillion.Shared.Validation.{ℤ, pos, negsuc}
use startprojectformillion.Issuance.Contracts.{
  IssuanceOperationType, IssuanceOutcomeCategory, IssuanceRequest, IssuanceServiceResult,
}
use startprojectformillion.Handlers.Ports.{IdentityRecord, SubscriptionSnapshot}
use startprojectformillion.Handlers.Status.{
  IssuanceCurrentStateRef, Lookup, snapshot_state_from_reader_label, is_past,
}

pub data TelegramAccessResendOutcome : Type 0 where
  not_enabled resend_accepted not_eligible : TelegramAccessResendOutcome
  cooldown not_ready temporarily_unavailable : TelegramAccessResendOutcome

pub data TelegramAccessResendSourceCommand : Type 0 where
  resend_access get_access : TelegramAccessResendSourceCommand

pub record TelegramAccessResendInput : Type 0 where
  pub telegram_user_id : ℤ
  pub telegram_update_id : ℤ
  pub correlation_id : String
  pub source_command : Option TelegramAccessResendSourceCommand

pub record TelegramAccessResendResult : Type 0 where
  pub outcome : TelegramAccessResendOutcome
  pub correlation_id : String
  pub resend_idempotency_key : Option String

-- What the handler is built with; an `Option` is a part that may not be configured.
pub record ResendParts (E : Type 0) : Type 0 where
  pub find_identity : ℤ → Exec E (Option IdentityRecord)
  pub get_snapshot : String → Exec E (Option SubscriptionSnapshot)
  pub issuance_service : Option (IssuanceRequest → Exec E IssuanceServiceResult)
  pub issuance_state_lookup : Lookup E
  pub issuance_state_mutation : Option (String → String → Exec E Unit)
  pub consume_cooldown : String → ℕ → Exec E Bool
  pub record_disabled_hit : Option TelegramAccessResendSourceCommand → Exec E Unit
  pub enabled : Bool
  pub now_seconds : ℕ
  pub now_utc : ℕ

-- `str(n)`
abbrev pub str_int : ℤ → String
str_int (pos n) = str_nat n
str_int (negsuc n) = string_append "-" (str_nat (n + 1))

unfoldable pub build_telegram_resend_idempotency_key : ℤ → ℤ → String
build_telegram_resend_idempotency_key telegram_user_id telegram_update_id =
    string_append (string_append "tg-resend:" (str_int telegram_user_id))
      (string_append ":" (str_int telegram_update_id))

-- `_map_outcome`
unfoldable pub map_outcome : IssuanceOutcomeCategory → TelegramAccessResendOutcome
map_outcome IssuanceOutcomeCategory.delivery_ready = TelegramAccessResendOutcome.resend_accepted
map_outcome IssuanceOutcomeCategory.not_entitled = TelegramAccessResendOutcome.not_eligible
map_outcome IssuanceOutcomeCategory.needs_review = TelegramAccessResendOutcome.not_eligible
map_outcome IssuanceOutcomeCategory.unsafe_to_deliver = TelegramAccessResendOutcome.not_ready
map_outcome IssuanceOutcomeCategory.revoked = TelegramAccessResendOutcome.not_ready
map_outcome IssuanceOutcomeCategory.already_issued = TelegramAccessResendOutcome.not_ready
map_outcome _ = TelegramAccessResendOutcome.temporarily_unavailable

abbrev pub without_key : TelegramAccessResendOutcome → String → TelegramAccessResendResult
without_key outcome cid = record {
  outcome = outcome;
  correlation_id = cid;
  resend_idempotency_key = none;
}

-- `state is SubscriptionSnapshotState.ACTIVE`
abbrev is_active : SubscriptionSnapshotState → Bool
is_active SubscriptionSnapshotState.active = true
is_active _ = false

module _ {E : Type 0} (parts : ResendParts E) where
  -- The best-effort revoke of an expired access: what it raises is dropped.
  unfoldable pub revoke_expired : String → E → E
  revoke_expired user env = elim parts.issuance_state_lookup [
    | none ↦ env
    | some get_current ↦ elim parts.issuance_state_mutation [
      | none ↦ env
      | some mark ↦
          let (current, env1) = get_current user env in
          elim current [
            | err e ↦ env1
            | ok none ↦ env1
            | ok (some ref) ↦
                if not ref.is_revoked then (mark user ref.issue_idempotency_key env1).1 else env1
          ]
    ]
  ]

  abbrev pub resend_request_of : TelegramAccessResendInput → String → String → IssuanceRequest
  resend_request_of inp user link = record {
    internal_user_id = user;
    subscription_state = some SubscriptionSnapshotState.active;
    operation = IssuanceOperationType.resend;
    idempotency_key =
        build_telegram_resend_idempotency_key inp.telegram_user_id inp.telegram_update_id;
    correlation_id = inp.correlation_id;
    link_issue_idempotency_key = some link;
  }

  -- From the call of the cooldown store on.
  unfoldable pub resend_allowed :
      TelegramAccessResendInput → String → Exec E TelegramAccessResendResult
  unfolding map_outcome build_telegram_resend_idempotency_key
  resend_allowed inp user env =
      let cid = inp.correlation_id in
      let (allowed, env1) = parts.consume_cooldown user parts.now_seconds env in
      elim allowed [
        | err e ↦ (err e, env1)
        | ok false ↦ (ok (without_key TelegramAccessResendOutcome.cooldown cid), env1)
        | ok true ↦ elim parts.issuance_service [
          | none ↦ (ok (without_key TelegramAccessResendOutcome.temporarily_unavailable cid), env1)
          | some service ↦ elim parts.issuance_state_lookup [
            | none ↦
                (ok (without_key TelegramAccessResendOutcome.temporarily_unavailable cid), env1)
            | some get_current ↦
                let (current, env2) = get_current user env1 in
                elim current [
                  | err e ↦ (err e, env2)
                  | ok none ↦ (ok (without_key TelegramAccessResendOutcome.not_ready cid), env2)
                  | ok (some ref) ↦
                      if ref.is_revoked
                      then (ok (without_key TelegramAccessResendOutcome.not_ready cid), env2)
                      else (let req = resend_request_of inp user ref.issue_idempotency_key in
                          let (answer, env3) = service req env2 in
                          elim answer [
                            | err e ↦ (err e, env3)
                            | ok result ↦ (
                              ok (record {
                                outcome = map_outcome result.category;
                                correlation_id = cid;
                                resend_idempotency_key = some req.idempotency_key;
                              }),
                              env3,
                            )
                          ])
                ]
          ]
        ]
      ]

  -- `TelegramAccessResendHandler.handle`
  unfoldable pub handle_resend : TelegramAccessResendInput → Exec E TelegramAccessResendResult
  unfolding require_correlation_id snapshot_state_from_reader_label revoke_expired resend_allowed
  handle_resend inp env =
      let cid = inp.correlation_id in
      elim (require_correlation_id cid) [
        | err e ↦ (ok (without_key TelegramAccessResendOutcome.temporarily_unavailable cid), env)
        | ok c ↦
            if not parts.enabled
            then (
              ok (without_key TelegramAccessResendOutcome.not_enabled cid),
              (parts.record_disabled_hit inp.source_command env).1,
            )
            else (let (found, env1) = parts.find_identity inp.telegram_user_id env in
                elim found [
                  | err e ↦ (err e, env1)
                  | ok none ↦ (ok (without_key TelegramAccessResendOutcome.not_eligible cid), env1)
                  | ok (some identity) ↦
                      let user = identity.internal_user_id in
                      let (snapshot, env2) = parts.get_snapshot user env1 in
                      elim snapshot [
                        | err e ↦ (err e, env2)
                        | ok none ↦
                            (ok (without_key TelegramAccessResendOutcome.not_eligible cid), env2)
                        | ok (some snap) ↦
                            if not (is_active (snapshot_state_from_reader_label snap.state_label))
                            then (
                              ok (without_key TelegramAccessResendOutcome.not_eligible cid),
                              env2,
                            )
                            else if is_past snap.active_until_utc parts.now_utc
                            then (
                              ok (without_key TelegramAccessResendOutcome.not_eligible cid),
                              revoke_expired user env2,
                            )
                            else resend_allowed inp user env2
                      ]
                ])
      ]
