-- ===== src/Admin/Diagnostics.antt =====
-- `Adm02DiagnosticsHandler` (backend/src/app/admin_support/adm02_diagnostics.py).
pub mod Audited
use startprojectformillion.Base.{String, Bool, true, false, Option, none, some, List}
use startprojectformillion.Shared.{Exec, Result, ok, err}
use startprojectformillion.Shared.Correlation.{require_correlation_id}
use startprojectformillion.Admin.Contracts.{
  AdminActorRef, AdminTargetLookup, AdminInput, RedactionMarker, attempt,
}

pub data BillingFactsCategory : Type 0 where
  unknown no_facts has_accepted : BillingFactsCategory

pub record BillingFactsDiagnostics : Type 0 where
  pub category : BillingFactsCategory
  pub internal_fact_refs : List String

pub data QuarantineMarker : Type 0 where
  unknown no_quarantine active : QuarantineMarker

pub data QuarantineReasonCode : Type 0 where
  unknown no_reason mismatch needs_review : QuarantineReasonCode

pub record QuarantineDiagnostics : Type 0 where
  pub marker : QuarantineMarker
  pub reason_code : QuarantineReasonCode

pub data ReconciliationRunMarker : Type 0 where
  unknown no_run no_changes facts_discovered : ReconciliationRunMarker

pub record Adm02DiagnosticsSummary : Type 0 where
  pub billing : BillingFactsDiagnostics
  pub quarantine : QuarantineDiagnostics
  pub reconciliation : ReconciliationRunMarker
  pub redaction : RedactionMarker

pub data Adm02DiagnosticsOutcome : Type 0 where
  success denied target_not_resolved invalid_input : Adm02DiagnosticsOutcome
  dependency_failure : Adm02DiagnosticsOutcome

pub record Adm02DiagnosticsResult : Type 0 where
  pub outcome : Adm02DiagnosticsOutcome
  pub correlation_id : String
  pub summary : Option Adm02DiagnosticsSummary

pub data FactOfAccessDisclosureCategory : Type 0 where
  unredacted partial fully_redacted : FactOfAccessDisclosureCategory

pub record FactOfAccessAuditRecord : Type 0 where
  pub actor : AdminActorRef
  pub capability_class : String
  pub internal_user_scope_ref : String
  pub correlation_id : String
  pub disclosure : FactOfAccessDisclosureCategory

-- What the handler is built with.
pub record DiagnosticsPorts (E : Type 0) : Type 0 where
  pub check_allowed : AdminActorRef → String → Exec E Bool
  pub resolve_internal_user_id : AdminTargetLookup → String → Exec E (Option String)
  pub get_billing_facts : String → Exec E BillingFactsDiagnostics
  pub get_quarantine : String → Exec E QuarantineDiagnostics
  pub get_reconciliation : String → Exec E ReconciliationRunMarker
  pub append_fact_of_access : FactOfAccessAuditRecord → Exec E Unit
  pub redact : Option (Adm02DiagnosticsSummary → Exec E Adm02DiagnosticsSummary)

unfoldable pub disclosure_from_redaction : RedactionMarker → FactOfAccessDisclosureCategory
disclosure_from_redaction RedactionMarker.unredacted = FactOfAccessDisclosureCategory.unredacted
disclosure_from_redaction RedactionMarker.partial = FactOfAccessDisclosureCategory.partial
disclosure_from_redaction RedactionMarker.full = FactOfAccessDisclosureCategory.fully_redacted

abbrev pub undisclosed : Adm02DiagnosticsOutcome → String → Adm02DiagnosticsResult
undisclosed outcome cid = record { outcome = outcome; correlation_id = cid; summary = none }

unfoldable pub fact_of_access :
    AdminInput → String → Adm02DiagnosticsSummary → FactOfAccessAuditRecord
unfolding disclosure_from_redaction
fact_of_access inp user summary = record {
  actor = inp.actor;
  capability_class = "adm02_billing_quarantine_reconciliation_diagnostics";
  internal_user_scope_ref = user;
  correlation_id = inp.correlation_id;
  disclosure = disclosure_from_redaction summary.redaction;
}

module _ {E : Type 0} (ports : DiagnosticsPorts E) where
  -- The record of the access, and then the result.
  unfoldable pub disclose :
      AdminInput → String → Adm02DiagnosticsSummary → E → Adm02DiagnosticsResult × E
  unfolding attempt fact_of_access
  disclose inp user summary env =
      attempt (ports.append_fact_of_access (fact_of_access inp user summary))
        (undisclosed Adm02DiagnosticsOutcome.dependency_failure inp.correlation_id)
        (λ u env1. (
          record {
            outcome = Adm02DiagnosticsOutcome.success;
            correlation_id = inp.correlation_id;
            summary = some summary;
          },
          env1,
        ))
        env

  unfoldable pub redact_and_disclose :
      AdminInput → String → Adm02DiagnosticsSummary → E → Adm02DiagnosticsResult × E
  unfolding attempt disclose
  redact_and_disclose inp user summary env = elim ports.redact [
    | none ↦ disclose inp user summary env
    | some redact ↦
        attempt (redact summary)
          (undisclosed Adm02DiagnosticsOutcome.dependency_failure inp.correlation_id)
          (disclose inp user) env
  ]

  -- The three reads of a resolved user.
  unfoldable pub diagnose : AdminInput → Option String → E → Adm02DiagnosticsResult × E
  unfolding attempt redact_and_disclose
  diagnose inp none env =
      (undisclosed Adm02DiagnosticsOutcome.target_not_resolved inp.correlation_id, env)
  diagnose inp (some user) env =
      let failed : Adm02DiagnosticsResult =
        undisclosed Adm02DiagnosticsOutcome.dependency_failure inp.correlation_id in
      attempt (ports.get_billing_facts user) failed
        (λ billing. attempt (ports.get_quarantine user) failed (λ quarantine.
          attempt (ports.get_reconciliation user) failed (λ reconciliation.
            redact_and_disclose inp user (record {
              billing = billing;
              quarantine = quarantine;
              reconciliation = reconciliation;
              redaction = RedactionMarker.unredacted;
            }))))
        env

  unfoldable pub diagnose_allowed : AdminInput → Bool → E → Adm02DiagnosticsResult × E
  unfolding attempt diagnose
  diagnose_allowed inp false env =
      (undisclosed Adm02DiagnosticsOutcome.denied inp.correlation_id, env)
  diagnose_allowed inp true env =
      attempt (ports.resolve_internal_user_id inp.target inp.correlation_id)
        (undisclosed Adm02DiagnosticsOutcome.dependency_failure inp.correlation_id) (diagnose inp)
        env

  -- `Adm02DiagnosticsHandler.handle`
  unfoldable pub handle_diagnostics : AdminInput → E → Adm02DiagnosticsResult × E
  unfolding require_correlation_id attempt diagnose_allowed
  handle_diagnostics inp env = elim (require_correlation_id inp.correlation_id) [
    | err e ↦ (undisclosed Adm02DiagnosticsOutcome.invalid_input inp.correlation_id, env)
    | ok cid ↦
        attempt (ports.check_allowed inp.actor inp.correlation_id)
          (undisclosed Adm02DiagnosticsOutcome.dependency_failure inp.correlation_id)
          (diagnose_allowed inp) env
  ]
