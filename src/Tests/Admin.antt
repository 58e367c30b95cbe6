-- ===== src/Tests/Admin.antt =====
-- The admin handlers over ports that count their calls.
use startprojectformillion.Base.{ℕ, zero, suc, ◌+◌, true, none, some, [], ◌≡◌, refl}
use startprojectformillion.Shared.{ok}
use startprojectformillion.Shared.Correlation.{
  sample_id, is_valid_correlation_id, require_correlation_id,
}
use startprojectformillion.Handlers.Ports.{SubscriptionSnapshot}
use startprojectformillion.Admin.Contracts.{
  AdminInput, IssuanceOperationalState, RedactionMarker, internal_user_target,
  subscription_bucket_from_snapshot, attempt,
}
use startprojectformillion.Admin.Lookup.{
  EntitlementSummaryCategory, AdminPolicyFlag, LookupPorts, read_summary, redacted, look_up,
  look_up_allowed, handle_lookup,
}
use startprojectformillion.Admin.Lookup.Consistent.{IsConsistent, lookup-IsConsistent}
use startprojectformillion.Admin.Diagnostics.{
  BillingFactsCategory, QuarantineMarker, QuarantineReasonCode, ReconciliationRunMarker,
  Adm02DiagnosticsSummary, DiagnosticsPorts, disclose, redact_and_disclose, diagnose,
  diagnose_allowed, handle_diagnostics,
}
use startprojectformillion.Admin.Diagnostics.Audited.{IsOnRecord, diagnostics_are_audited}
use startprojectformillion.Admin.Ensure.{
  EnsurePorts, issue_missing, remediate, remediate_user, remediate_enabled, remediate_allowed,
  conclude, handle_ensure,
}
use startprojectformillion.Admin.Ensure.Issued.{IsDueIn, issued_is_due}

abbrev inp : AdminInput
inp = record {
  actor = record { internal_admin_principal_id = "admin-1" };
  target = internal_user_target "u7";
  correlation_id = sample_id;
}

abbrev paid : SubscriptionSnapshot
paid = record { internal_user_id = "u7"; state_label = "active"; active_until_utc = some 900 }

abbrev lookup_ports : LookupPorts ℕ
lookup_ports = record {
  check_allowed = λ actor cid calls. (ok true, calls + 1);
  resolve_internal_user_id = λ target cid calls. (ok (some "u7"), calls + 1);
  get_subscription_snapshot = λ user calls. (ok (some paid), calls + 1);
  get_entitlement_summary = λ user calls. (ok EntitlementSummaryCategory.active, calls + 1);
  get_issuance_summary = λ user calls. (ok IssuanceOperationalState.ok_state, calls + 1);
  get_policy_flag = λ user calls. (ok AdminPolicyFlag.default, calls + 1);
  redact = none;
}

lookup-IsConsistent_example : IsConsistent (
    read_summary
      (some paid)
      EntitlementSummaryCategory.active
      IssuanceOperationalState.ok_state
      AdminPolicyFlag.default)
unfolding handle_lookup look_up_allowed look_up redacted attempt require_correlation_id
    is_valid_correlation_id
lookup-IsConsistent_example =
    lookup-IsConsistent lookup_ports refl inp 0
      (read_summary (some paid) EntitlementSummaryCategory.active IssuanceOperationalState.ok_state
        AdminPolicyFlag.default)
      refl

abbrev clean : Adm02DiagnosticsSummary
clean = record {
  billing = record { category = BillingFactsCategory.no_facts; internal_fact_refs = [] };
  quarantine = record {
    marker = QuarantineMarker.no_quarantine;
    reason_code = QuarantineReasonCode.no_reason;
  };
  reconciliation = ReconciliationRunMarker.no_run;
  redaction = RedactionMarker.unredacted;
}

abbrev diagnostics_ports : DiagnosticsPorts ℕ
diagnostics_ports = record {
  check_allowed = λ actor cid calls. (ok true, calls + 1);
  resolve_internal_user_id = λ target cid calls. (ok (some "u7"), calls + 1);
  get_billing_facts = λ user calls. (ok clean.billing, calls + 1);
  get_quarantine = λ user calls. (ok clean.quarantine, calls + 1);
  get_reconciliation = λ user calls. (ok clean.reconciliation, calls + 1);
  append_fact_of_access = λ event calls. (ok tt, calls + 100);
  redact = none;
}

diagnostics_are_audited_example : IsOnRecord diagnostics_ports clean inp 0 105
unfolding handle_diagnostics diagnose_allowed diagnose redact_and_disclose disclose attempt
    require_correlation_id is_valid_correlation_id
diagnostics_are_audited_example = diagnostics_are_audited diagnostics_ports clean inp 0 refl

-- The first issuance makes the state OK.
abbrev ensure_ports : EnsurePorts ℕ
ensure_ports = record {
  check_allowed = λ actor cid calls. (ok true, calls);
  check_opt_in = λ cid calls. (ok true, calls);
  resolve_internal_user_id = λ target cid calls. (ok (some "u7"), calls);
  get_subscription_snapshot = λ user calls. (ok (some paid), calls);
  get_issuance_summary = λ user calls. (
    ok (elim calls [
      | zero ↦ IssuanceOperationalState.none_state
      | suc n ↦ IssuanceOperationalState.ok_state
    ]),
    calls,
  );
  ensure_access_issued = λ user cid calls. (ok true, calls + 1);
  append_event = λ event calls. (ok tt, calls);
}

issued_is_due_example :
    ((ensure_ports.check_allowed inp.actor sample_id 0).0 ≡ ok true)
    × ((ensure_ports.check_opt_in sample_id 0).0 ≡ ok true)
    × IsDueIn ensure_ports inp 0
unfolding handle_ensure conclude remediate_allowed remediate_enabled remediate_user remediate
    issue_missing attempt require_correlation_id is_valid_correlation_id
    subscription_bucket_from_snapshot
issued_is_due_example = issued_is_due ensure_ports inp 0 refl
