-- ===== src/Admin/Ensure.antt =====
-- `Adm02EnsureAccessHandler` (backend/src/app/admin_support/adm02_ensure_access.py).
pub mod Issued
use startprojectformillion.Base.{
  String, Bool, true, false, not, Option, none, some, map_option, if◌then◌else◌,
}
use startprojectformillion.Shared.{Exec, Result, ok, err}
use startprojectformillion.Shared.Correlation.{require_correlation_id}
use startprojectformillion.Handlers.Ports.{SubscriptionSnapshot}
use startprojectformillion.Admin.Contracts.{
  AdminActorRef, AdminTargetLookup, AdminInput, SupportSubscriptionBucket,
  SupportAccessReadinessBucket, SupportNextAction, IssuanceOperationalState, is_active_bucket,
  is_ok_state, subscription_bucket_from_snapshot, attempt,
}

pub data EnsureAccessOutcome : Type 0 where
  success denied invalid_input dependency_failure : EnsureAccessOutcome

pub data RemediationResult : Type 0 where
  noop_identity_unknown noop_no_active_subscription : RemediationResult
  noop_access_already_ready issued_access failed_safe : RemediationResult

pub record EnsureAccessSummary : Type 0 where
  pub telegram_identity_known : Bool
  pub subscription_bucket : SupportSubscriptionBucket
  pub access_readiness_bucket : SupportAccessReadinessBucket
  pub remediation_result : RemediationResult
  pub recommended_next_action : SupportNextAction

pub record EnsureAccessResult : Type 0 where
  pub outcome : EnsureAccessOutcome
  pub correlation_id : String
  pub summary : Option EnsureAccessSummary

pub data EnsureAuditBucket : Type 0 where
  denied_unauthorized denied_mutation_opt_in_disabled : EnsureAuditBucket
  noop_identity_unknown noop_no_active_subscription : EnsureAuditBucket
  noop_access_already_ready issued_access failed_safe : EnsureAuditBucket
  dependency_failure invalid_input : EnsureAuditBucket

pub record EnsureAccessAuditEvent : Type 0 where
  pub outcome_bucket : EnsureAuditBucket
  pub remediation_result : Option RemediationResult
  pub readiness_bucket : Option SupportAccessReadinessBucket
  pub correlation_id : String

-- What the handler is built with.
pub record EnsurePorts (E : Type 0) : Type 0 where
  pub check_allowed : AdminActorRef → String → Exec E Bool
  pub check_opt_in : String → Exec E Bool
  pub resolve_internal_user_id : AdminTargetLookup → String → Exec E (Option String)
  pub get_subscription_snapshot : String → Exec E (Option SubscriptionSnapshot)
  pub get_issuance_summary : String → Exec E IssuanceOperationalState
  pub ensure_access_issued : String → String → Exec E Bool
  pub append_event : EnsureAccessAuditEvent → Exec E Unit

abbrev pub refused : EnsureAccessOutcome → String → EnsureAccessResult
refused outcome cid = record { outcome = outcome; correlation_id = cid; summary = none }

abbrev pub concluded :
    Bool
    → SupportSubscriptionBucket
    → SupportAccessReadinessBucket
    → RemediationResult
    → SupportNextAction
    → String
    → EnsureAccessResult
concluded known bucket readiness remediation next cid = record {
  outcome = EnsureAccessOutcome.success;
  correlation_id = cid;
  summary = some (record {
    telegram_identity_known = known;
    subscription_bucket = bucket;
    access_readiness_bucket = readiness;
    remediation_result = remediation;
    recommended_next_action = next;
  });
}

abbrev pub safe_failed_result : String → EnsureAccessResult
safe_failed_result cid =
    concluded true SupportSubscriptionBucket.unknown
      SupportAccessReadinessBucket.unknown_due_to_internal_error RemediationResult.failed_safe
      SupportNextAction.investigate_issuance cid

abbrev pub identity_unknown : String → EnsureAccessResult
identity_unknown cid =
    concluded false SupportSubscriptionBucket.unknown
      SupportAccessReadinessBucket.not_applicable_no_active_subscription
      RemediationResult.noop_identity_unknown SupportNextAction.ask_user_to_use_status cid

abbrev pub no_active_subscription : SupportSubscriptionBucket → String → EnsureAccessResult
no_active_subscription bucket cid =
    concluded true bucket SupportAccessReadinessBucket.not_applicable_no_active_subscription
      RemediationResult.noop_no_active_subscription SupportNextAction.investigate_billing_apply cid

abbrev pub access_ready : RemediationResult → String → EnsureAccessResult
access_ready remediation cid =
    concluded true SupportSubscriptionBucket.active SupportAccessReadinessBucket.active_access_ready
      remediation SupportNextAction.ask_user_to_use_get_access cid

-- `denied_bucket or DENIED_UNAUTHORIZED`
abbrev pub denied_as : Option EnsureAuditBucket → EnsureAuditBucket
denied_as none = EnsureAuditBucket.denied_unauthorized
denied_as (some bucket) = bucket

unfoldable pub remediation_bucket : RemediationResult → EnsureAuditBucket
remediation_bucket RemediationResult.noop_identity_unknown = EnsureAuditBucket.noop_identity_unknown
remediation_bucket RemediationResult.noop_no_active_subscription =
    EnsureAuditBucket.noop_no_active_subscription
remediation_bucket RemediationResult.noop_access_already_ready =
    EnsureAuditBucket.noop_access_already_ready
remediation_bucket RemediationResult.issued_access = EnsureAuditBucket.issued_access
remediation_bucket RemediationResult.failed_safe = EnsureAuditBucket.failed_safe

unfoldable pub audit_outcome_bucket :
    EnsureAccessResult → Option EnsureAuditBucket → EnsureAuditBucket
unfolding remediation_bucket
audit_outcome_bucket result denied_bucket = elim result.outcome [
  | EnsureAccessOutcome.denied ↦ denied_as denied_bucket
  | EnsureAccessOutcome.invalid_input ↦ EnsureAuditBucket.invalid_input
  | EnsureAccessOutcome.dependency_failure ↦ EnsureAuditBucket.dependency_failure
  | EnsureAccessOutcome.success ↦ elim result.summary [
    | none ↦ EnsureAuditBucket.failed_safe
    | some summary ↦ remediation_bucket summary.remediation_result
  ]
]

-- The event: its type and principal marker have one value each.
unfoldable pub audit_event : EnsureAccessResult → Option EnsureAuditBucket → EnsureAccessAuditEvent
unfolding audit_outcome_bucket
audit_event result denied_bucket = record {
  outcome_bucket = audit_outcome_bucket result denied_bucket;
  remediation_result =
      map_option (λ (s : EnsureAccessSummary). s.remediation_result) result.summary;
  readiness_bucket =
      map_option (λ (s : EnsureAccessSummary). s.access_readiness_bucket) result.summary;
  correlation_id = result.correlation_id;
}

-- A result with the bucket that a denial is audited under.
abbrev pub Concluded : Type 0
Concluded = EnsureAccessResult × Option EnsureAuditBucket

module _ {E : Type 0} (ports : EnsurePorts E) where
  -- From the mutation on.
  unfoldable pub issue_missing : String → String → E → Concluded × E
  unfolding attempt
  issue_missing cid user env =
      attempt (ports.ensure_access_issued user cid) (safe_failed_result cid, none)
        (λ issued_new.
          attempt (ports.get_issuance_summary user) (safe_failed_result cid, none)
            (λ state env1. (
              (
                if is_ok_state state
                    then access_ready
                        (if issued_new
                          then RemediationResult.issued_access
                          else RemediationResult.noop_access_already_ready)
                        cid
                    else safe_failed_result cid,
                none,
              ),
              env1,
            )))
        env

  -- With the snapshot and the issuance's state read.
  unfoldable pub remediate :
      String → String → Option SubscriptionSnapshot → IssuanceOperationalState → E → Concluded × E
  unfolding subscription_bucket_from_snapshot issue_missing
  remediate cid user snapshot state env =
      let bucket = subscription_bucket_from_snapshot snapshot in
      if not (is_active_bucket bucket)
      then ((no_active_subscription bucket cid, none), env)
      else if is_ok_state state
      then ((access_ready RemediationResult.noop_access_already_ready cid, none), env)
      else issue_missing cid user env

  -- With the identity resolved.
  unfoldable pub remediate_user : String → Option String → E → Concluded × E
  unfolding attempt remediate
  remediate_user cid none env = ((identity_unknown cid, none), env)
  remediate_user cid (some user) env =
      attempt (ports.get_subscription_snapshot user) (safe_failed_result cid, none)
        (λ snapshot.
          attempt (ports.get_issuance_summary user) (safe_failed_result cid, none)
            (remediate cid user snapshot))
        env

  -- With the opt-in checked.
  unfoldable pub remediate_enabled : AdminInput → Bool → E → Concluded × E
  unfolding attempt remediate_user
  remediate_enabled inp false env = (
    (
      refused EnsureAccessOutcome.denied inp.correlation_id,
      some EnsureAuditBucket.denied_mutation_opt_in_disabled,
    ),
    env,
  )
  remediate_enabled inp true env =
      attempt (ports.resolve_internal_user_id inp.target inp.correlation_id)
        (refused EnsureAccessOutcome.dependency_failure inp.correlation_id, none)
        (remediate_user inp.correlation_id) env

  -- With the capability checked.
  unfoldable pub remediate_allowed : AdminInput → Bool → E → Concluded × E
  unfolding attempt remediate_enabled
  remediate_allowed inp false env = (
    (
      refused EnsureAccessOutcome.denied inp.correlation_id,
      some EnsureAuditBucket.denied_unauthorized,
    ),
    env,
  )
  remediate_allowed inp true env =
      attempt (ports.check_opt_in inp.correlation_id)
        (refused EnsureAccessOutcome.dependency_failure inp.correlation_id, none)
        (remediate_enabled inp) env

  -- The handler before its audit.
  unfoldable pub conclude : AdminInput → E → Concluded × E
  unfolding require_correlation_id attempt remediate_allowed
  conclude inp env = elim (require_correlation_id inp.correlation_id) [
    | err e ↦ ((refused EnsureAccessOutcome.invalid_input inp.correlation_id, none), env)
    | ok cid ↦
        attempt (ports.check_allowed inp.actor inp.correlation_id)
          (refused EnsureAccessOutcome.dependency_failure inp.correlation_id, none)
          (remediate_allowed inp) env
  ]

  -- `Adm02EnsureAccessHandler.handle`: each branch ends with `_append_safe_audit`, whose exceptions
  -- are dropped.
  unfoldable pub handle_ensure : AdminInput → E → EnsureAccessResult × E
  unfolding conclude audit_event
  handle_ensure inp env =
      let ((result, denied_bucket), env1) = conclude inp env in
      (result, (ports.append_event (audit_event result denied_bucket) env1).1)
