-- ===== src/Admin/Diagnostics/Audited.antt =====
-- No diagnostics without a record of the access.
use startprojectformillion.Base.{
  String, Bool, true, false, Option, none, some, ◌≡◌, ◌⊎◌, refl, sym, arith, inl, inr, Option-cases,
}
use startprojectformillion.Shared.{ok, Result-cases}
use startprojectformillion.Shared.Correlation.{require_correlation_id}
use startprojectformillion.Admin.Contracts.{AdminInput, RedactionMarker, attempt, attempt-reaches}
use startprojectformillion.Admin.Diagnostics.{
  Adm02DiagnosticsSummary, Adm02DiagnosticsOutcome, Adm02DiagnosticsResult, DiagnosticsPorts,
  FactOfAccessAuditRecord, FactOfAccessDisclosureCategory, disclosure_from_redaction, undisclosed,
  fact_of_access, disclose, redact_and_disclose, diagnose, diagnose_allowed, handle_diagnostics,
}

-- How far a summary is redacted, and what the record says of it.
abbrev pub Discloses : RedactionMarker → FactOfAccessDisclosureCategory → Type 0
Discloses marker disclosure =
    ((marker ≡ RedactionMarker.unredacted)
      × (disclosure ≡ FactOfAccessDisclosureCategory.unredacted))
    ⊎ (((marker ≡ RedactionMarker.partial) × (disclosure ≡ FactOfAccessDisclosureCategory.partial))
        ⊎ ((marker ≡ RedactionMarker.full)
            × (disclosure ≡ FactOfAccessDisclosureCategory.fully_redacted)))

disclosure_lem : (marker : RedactionMarker) → Discloses marker (disclosure_from_redaction marker)
unfolding disclosure_from_redaction
disclosure_lem marker = ground arith

module _ {E : Type 0} (ports : DiagnosticsPorts E) (summary : Adm02DiagnosticsSummary) where
  -- The summary is shown, in the surroundings `final`.
  Shows : E → Adm02DiagnosticsResult → E → Type 0
  Shows final result env = (result.summary ≡ some summary) × (env ≡ final)

  -- The record of this access, field by field.
  abbrev pub NamesAccess : AdminInput → String → FactOfAccessAuditRecord → Type 0
  NamesAccess inp user event =
      (event.actor.internal_admin_principal_id ≡ inp.actor.internal_admin_principal_id)
      × (event.capability_class ≡ "adm02_billing_quarantine_reconciliation_diagnostics")
      × (event.internal_user_scope_ref ≡ user)
      × (event.correlation_id ≡ inp.correlation_id)
      × (Discloses summary.redaction event.disclosure)

  -- The last call was that of the audit, which took the record of this access.
  abbrev pub IsAudited : AdminInput → String → E → Type 0
  IsAudited inp user final =
      (before : E) × ((event : FactOfAccessAuditRecord) × (NamesAccess inp user event
          × (ports.append_fact_of_access event before ≡ (ok tt, final))))

  fact-NamesAccess :
      (inp : AdminInput) (user : String) → NamesAccess inp user (fact_of_access inp user summary)
  unfolding fact_of_access
  fact-NamesAccess inp user = (refl, refl, refl, refl, disclosure_lem summary.redaction)

  disclose-IsAudited :
      (inp : AdminInput) (user : String) (shown : Adm02DiagnosticsSummary) (env final : E)
      → Shows final (disclose ports inp user shown env).0 (disclose ports inp user shown env).1
      → IsAudited inp user final
  unfolding disclose attempt Shows
  disclose-IsAudited inp user shown env final h =
      elim (Result-cases (ports.append_fact_of_access (fact_of_access inp user shown) env).0) [
        | inl (e, raised) ↦ let never : ⊥ = ground (arith, h, raised) in elim never [ ]
        | inr (u, taken) ↦ (
          env,
          (fact_of_access inp user summary, (fact-NamesAccess inp user, ground (arith, h, taken))),
        )
      ]

  redact-IsAudited :
      (inp : AdminInput) (user : String) (read : Adm02DiagnosticsSummary) (env final : E)
      → Shows final
          (redact_and_disclose ports inp user read env).0
          (redact_and_disclose ports inp user read env).1
      → IsAudited inp user final
  unfolding redact_and_disclose Shows
  redact-IsAudited inp user read env final h = elim (Option-cases ports.redact) [
    | inl plain ↦ disclose-IsAudited inp user read env final (ground (arith, h, plain))
    | inr (redact, hides) ↦
        let (shown, (_, h1)) =
          attempt-reaches (Shows final) (redact read)
            (undisclosed Adm02DiagnosticsOutcome.dependency_failure inp.correlation_id)
            (disclose ports inp user) env (λ q. ground (arith, q)) (ground (arith, h, hides)) in
        disclose-IsAudited inp user shown (redact read env).1 final h1
  ]

  diagnose-IsAudited :
      (inp : AdminInput) (user : String) (env final : E)
      → Shows final (diagnose ports inp (some user) env).0 (diagnose ports inp (some user) env).1
      → IsAudited inp user final
  unfolding diagnose Shows
  diagnose-IsAudited inp user env final h =
      let on_error = undisclosed Adm02DiagnosticsOutcome.dependency_failure inp.correlation_id in
      let (billing, (_, h1)) =
        attempt-reaches (Shows final) (ports.get_billing_facts user) on_error _ env
          (λ q. ground (arith, q)) h in
      let env1 : E = (ports.get_billing_facts user env).1 in
      let (quarantine, (_, h2)) =
        attempt-reaches (Shows final) (ports.get_quarantine user) on_error _ env1
          (λ q. ground (arith, q)) h1 in
      let env2 : E = (ports.get_quarantine user env1).1 in
      let (reconciliation, (_, h3)) =
        attempt-reaches (Shows final) (ports.get_reconciliation user) on_error _ env2
          (λ q. ground (arith, q)) h2 in
      redact-IsAudited inp user
        (record {
          billing = billing;
          quarantine = quarantine;
          reconciliation = reconciliation;
          redaction = RedactionMarker.unredacted;
        })
        (ports.get_reconciliation user env2).1 final h3

  -- The actor was allowed, the target is this user, and the access is on record.
  abbrev pub IsOnRecord : AdminInput → E → E → Type 0
  IsOnRecord inp env final =
      let cid = inp.correlation_id in
      let (allowed, env1) = ports.check_allowed inp.actor cid env in
      (allowed ≡ ok true)
      × ((user : String) × (((ports.resolve_internal_user_id inp.target cid env1).0
              ≡ ok (some user))
            × IsAudited inp user final))

  resolved-IsAudited :
      (inp : AdminInput) (found : Option String) (env final : E)
      → Shows final (diagnose ports inp found env).0 (diagnose ports inp found env).1
      → (user : String) × ((found ≡ some user) × IsAudited inp user final)
  unfolding diagnose Shows
  resolved-IsAudited inp none env final h = let never : ⊥ = ground (arith, h) in elim never [ ]
  resolved-IsAudited inp (some user) env final h =
      (user, (refl, diagnose-IsAudited inp user env final h))

  allowed-IsAudited :
      (inp : AdminInput) (allowed : Bool) (env final : E)
      → Shows final
          (diagnose_allowed ports inp allowed env).0
          (diagnose_allowed ports inp allowed env).1
      → (allowed ≡ true)
        × ((user : String) × (((ports.resolve_internal_user_id inp.target inp.correlation_id env).0
                ≡ ok (some user))
              × IsAudited inp user final))
  unfolding diagnose_allowed Shows
  allowed-IsAudited inp false env final h = let never : ⊥ = ground (arith, h) in elim never [ ]
  allowed-IsAudited inp true env final h =
      let cid = inp.correlation_id in
      let (found, (resolved, h1)) =
        attempt-reaches (Shows final) (ports.resolve_internal_user_id inp.target cid)
          (undisclosed Adm02DiagnosticsOutcome.dependency_failure cid) (diagnose ports inp) env
          (λ q. ground (arith, q)) h in
      let (user, (named, audited)) =
        resolved-IsAudited inp found (ports.resolve_internal_user_id inp.target cid env).1 final
          h1 in
      (refl, (user, (rw (sym named) resolved, audited)))

  -- Diagnostics are shown only to an actor who was allowed, for the user that the target resolves to,
  -- and only after the audit took the record of this access: its last call, which names the actor,
  -- the user, the correlation id and how far the shown summary is redacted.
  pub diagnostics_are_audited :
      (inp : AdminInput) (env : E)
      → (handle_diagnostics ports inp env).0.summary ≡ some summary
      → IsOnRecord inp env (handle_diagnostics ports inp env).1
  unfolding handle_diagnostics Shows
  diagnostics_are_audited inp env h =
      let cid = inp.correlation_id in
      let final : E = (handle_diagnostics ports inp env).1 in
      elim (Result-cases (require_correlation_id cid)) [
        | inl (e, bad) ↦ let never : ⊥ = ground (arith, h, bad) in elim never [ ]
        | inr (c, good) ↦
            let (allowed, (checked, h1)) =
              attempt-reaches (Shows final) (ports.check_allowed inp.actor cid)
                (undisclosed Adm02DiagnosticsOutcome.dependency_failure cid)
                (diagnose_allowed ports inp) env (λ q. ground (arith, q))
                (ground (arith, h, good)) in
            let (is_true, rest) =
              allowed-IsAudited inp allowed (ports.check_allowed inp.actor cid env).1 final h1 in
            (rw (sym is_true) checked, rest)
      ]
