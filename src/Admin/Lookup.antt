-- ===== src/Admin/Lookup.antt =====
-- `Adm01LookupHandler` (backend/src/app/admin_support/adm01_lookup.py).
pub mod Consistent
use startprojectformillion.Base.{String, Bool, true, false, not, Option, none, some, if◌then◌else◌}
use startprojectformillion.Shared.{Exec, Result, ok, err}
use startprojectformillion.Shared.Correlation.{require_correlation_id}
use startprojectformillion.Handlers.Ports.{SubscriptionSnapshot}
use startprojectformillion.Admin.Contracts.{
  AdminActorRef, AdminTargetLookup, AdminInput, SupportSubscriptionBucket,
  SupportAccessReadinessBucket, SupportNextAction, IssuanceOperationalState, RedactionMarker,
  is_active_bucket, is_ok_state, subscription_bucket_from_snapshot, attempt,
}

pub data EntitlementSummaryCategory : Type 0 where
  unknown none_category inactive active : EntitlementSummaryCategory

pub data AdminPolicyFlag : Type 0 where
  unknown default enforce_manual_review : AdminPolicyFlag

pub record SupportReadinessSummary : Type 0 where
  pub telegram_identity_known : Bool
  pub subscription_bucket : SupportSubscriptionBucket
  pub access_readiness_bucket : SupportAccessReadinessBucket
  pub recommended_next_action : SupportNextAction

pub record Adm01LookupSummary : Type 0 where
  pub snapshot : Option SubscriptionSnapshot
  pub entitlement : EntitlementSummaryCategory
  pub policy_flag : AdminPolicyFlag
  pub issuance : IssuanceOperationalState
  pub support_readiness : SupportReadinessSummary
  pub redaction : RedactionMarker

pub data Adm01LookupOutcome : Type 0 where
  success denied target_not_resolved invalid_input dependency_failure : Adm01LookupOutcome

pub record Adm01LookupResult : Type 0 where
  pub outcome : Adm01LookupOutcome
  pub correlation_id : String
  pub summary : Option Adm01LookupSummary

-- What the handler is built with.
pub record LookupPorts (E : Type 0) : Type 0 where
  pub check_allowed : AdminActorRef → String → Exec E Bool
  pub resolve_internal_user_id : AdminTargetLookup → String → Exec E (Option String)
  pub get_subscription_snapshot : String → Exec E (Option SubscriptionSnapshot)
  pub get_entitlement_summary : String → Exec E EntitlementSummaryCategory
  pub get_issuance_summary : String → Exec E IssuanceOperationalState
  pub get_policy_flag : String → Exec E AdminPolicyFlag
  pub redact : Option (Adm01LookupSummary → Exec E Adm01LookupSummary)

unfoldable pub access_readiness_bucket :
    SupportSubscriptionBucket → IssuanceOperationalState → SupportAccessReadinessBucket
access_readiness_bucket bucket state =
    if not (is_active_bucket bucket)
    then SupportAccessReadinessBucket.not_applicable_no_active_subscription
    else if is_ok_state state
    then SupportAccessReadinessBucket.active_access_ready
    else SupportAccessReadinessBucket.active_access_not_ready

unfoldable pub recommended_next_action : SupportAccessReadinessBucket → SupportNextAction
recommended_next_action SupportAccessReadinessBucket.active_access_ready =
    SupportNextAction.ask_user_to_use_get_access
recommended_next_action SupportAccessReadinessBucket.active_access_not_ready =
    SupportNextAction.investigate_issuance
recommended_next_action SupportAccessReadinessBucket.unknown_due_to_internal_error =
    SupportNextAction.investigate_issuance
recommended_next_action SupportAccessReadinessBucket.not_applicable_no_active_subscription =
    SupportNextAction.investigate_billing_apply

abbrev pub without_summary : Adm01LookupOutcome → String → Adm01LookupResult
without_summary outcome cid = record { outcome = outcome; correlation_id = cid; summary = none }

abbrev pub with_summary : String → Adm01LookupSummary → Adm01LookupResult
with_summary cid summary = record {
  outcome = Adm01LookupOutcome.success;
  correlation_id = cid;
  summary = some summary;
}

-- The summary of a user of whom nothing was read.
abbrev pub unread_summary :
    Bool → SupportAccessReadinessBucket → SupportNextAction → Adm01LookupSummary
unread_summary known readiness next = record {
  snapshot = none;
  entitlement = EntitlementSummaryCategory.unknown;
  policy_flag = AdminPolicyFlag.unknown;
  issuance = IssuanceOperationalState.unknown;
  support_readiness = record {
    telegram_identity_known = known;
    subscription_bucket = SupportSubscriptionBucket.unknown;
    access_readiness_bucket = readiness;
    recommended_next_action = next;
  };
  redaction = RedactionMarker.unredacted;
}

abbrev pub unresolved : String → Adm01LookupResult
unresolved cid = with_summary cid (
    unread_summary false SupportAccessReadinessBucket.not_applicable_no_active_subscription
      SupportNextAction.ask_user_to_use_status)

abbrev pub unreadable : String → Adm01LookupResult
unreadable cid = with_summary cid (
    unread_summary true SupportAccessReadinessBucket.unknown_due_to_internal_error
      SupportNextAction.investigate_issuance)

unfoldable pub read_summary :
    Option SubscriptionSnapshot
    → EntitlementSummaryCategory
    → IssuanceOperationalState
    → AdminPolicyFlag
    → Adm01LookupSummary
unfolding subscription_bucket_from_snapshot access_readiness_bucket recommended_next_action
read_summary snapshot entitlement issuance policy_flag =
    let bucket = subscription_bucket_from_snapshot snapshot in
    let readiness = access_readiness_bucket bucket issuance in
    record {
      snapshot = snapshot;
      entitlement = entitlement;
      policy_flag = policy_flag;
      issuance = issuance;
      support_readiness = record {
        telegram_identity_known = true;
        subscription_bucket = bucket;
        access_readiness_bucket = readiness;
        recommended_next_action = recommended_next_action readiness;
      };
      redaction = RedactionMarker.unredacted;
    }

module _ {E : Type 0} (ports : LookupPorts E) where
  -- `if self._redaction is not None: …`
  unfoldable pub redacted : String → Adm01LookupSummary → E → Adm01LookupResult × E
  unfolding attempt
  redacted cid summary env = elim ports.redact [
    | none ↦ (with_summary cid summary, env)
    | some redact ↦
        attempt (redact summary) (without_summary Adm01LookupOutcome.dependency_failure cid)
          (λ shown env1. (with_summary cid shown, env1)) env
  ]

  -- The four reads of a resolved user.
  unfoldable pub look_up : String → Option String → E → Adm01LookupResult × E
  unfolding attempt read_summary redacted
  look_up cid none env = (unresolved cid, env)
  look_up cid (some user) env =
      attempt (ports.get_subscription_snapshot user) (unreadable cid)
        (λ snapshot. attempt (ports.get_entitlement_summary user) (unreadable cid) (λ entitlement.
          attempt (ports.get_issuance_summary user) (unreadable cid) (λ issuance.
            attempt (ports.get_policy_flag user) (unreadable cid) (λ policy_flag.
              redacted cid (read_summary snapshot entitlement issuance policy_flag)))))
        env

  -- With the capability checked.
  unfoldable pub look_up_allowed : AdminInput → Bool → E → Adm01LookupResult × E
  unfolding attempt look_up
  look_up_allowed inp false env =
      (without_summary Adm01LookupOutcome.denied inp.correlation_id, env)
  look_up_allowed inp true env =
      attempt (ports.resolve_internal_user_id inp.target inp.correlation_id)
        (without_summary Adm01LookupOutcome.dependency_failure inp.correlation_id)
        (look_up inp.correlation_id) env

  -- `Adm01LookupHandler.handle`
  unfoldable pub handle_lookup : AdminInput → E → Adm01LookupResult × E
  unfolding require_correlation_id attempt look_up_allowed
  handle_lookup inp env = elim (require_correlation_id inp.correlation_id) [
    | err e ↦ (without_summary Adm01LookupOutcome.invalid_input inp.correlation_id, env)
    | ok cid ↦
        attempt (ports.check_allowed inp.actor inp.correlation_id)
          (without_summary Adm01LookupOutcome.dependency_failure inp.correlation_id)
          (look_up_allowed inp) env
  ]
