-- ===== src/Issuance/Gate.antt =====
-- The entitlement gate of `IssuanceService`, and what stands behind a delivery.
use startprojectformillion.Base.{
  String, Option, Bool, true, false, not, ◌≡◌, ◌≢◌, ◌⊎◌, arith, some, none,
}
use startprojectformillion.Shared.{Result, ok, err, SubscriptionSnapshotState}
use startprojectformillion.Issuance.Contracts.{
  IssuanceOperationType, IssuanceOutcomeCategory, IssuanceRequest, IssuanceServiceResult,
  IssuanceProviderPort, IssuanceOperationalStatePort,
}
use startprojectformillion.Issuance.Memory.{
  World, validate_basics, plain, with_ref, is_revoked_entry, is_revoked_row,
}
use startprojectformillion.Issuance.Issue.{execute_issue}
use startprojectformillion.Issuance.Resend.{execute_resend}
use startprojectformillion.Issuance.Revoke.{execute_revoke}
use startprojectformillion.Issuance.Service.{execute}

-- Nothing but the audit trail has changed, and nothing outside the service was called.
pub record OnlyAudited {E : Type 0} (w w' : World E) : Type 0 where
  pub env : w'.env ≡ w.env
  pub ledger : w'.service.ledger ≡ w.service.ledger
  pub issue_results : w'.service.issue_idempotent_result ≡ w.service.issue_idempotent_result
  pub revokes : w'.service.revoke_completed ≡ w.service.revoke_completed
  pub resends : w'.service.resend_cached ≡ w.service.resend_cached

-- The answers that grant nothing and show no reference.
abbrev pub IsRefusal : Result IssuanceServiceResult → Type 0
IsRefusal r =
    (r ≡ ok (plain IssuanceOutcomeCategory.not_entitled))
    ⊎ ((r ≡ ok (plain IssuanceOutcomeCategory.needs_review))
        ⊎ (r ≡ ok (plain IssuanceOutcomeCategory.internal_error)))

module _ {E : Type 0} (provider : IssuanceProviderPort E)
    (store : Option (IssuanceOperationalStatePort E)) where
  -- An ISSUE or a RESEND without an active subscription is answered with a refusal that shows no
  -- reference, and changes nothing but the audit trail: neither the provider nor the store is called.
  pub gate_refuses :
      (request : IssuanceRequest) (w : World E)
      → request.operation ≢ IssuanceOperationType.revoke
      → request.subscription_state ≢ some SubscriptionSnapshotState.active
      → let (r, w') = execute provider store request w in IsRefusal r × OnlyAudited w w'
  unfolding execute execute_issue execute_resend validate_basics
  gate_refuses request w op sub = ground arith

  -- An issued row is at rest for the key; `false` too where the store fails or is not there.
  abbrev pub issued_at_rest : String → String → E → Bool
  issued_at_rest user link env = elim store [
    | none ↦ false
    | some port ↦ elim (port.fetch_by_issue_keys user link env).0 [
      | err e ↦ false
      | ok found ↦ elim found [ none ↦ false | some row ↦ not (is_revoked_row row) ]
    ]
  ]

  -- Memory decides where it knows the key, and the rows at rest where it does not.
  abbrev pub is_backed : IssuanceRequest → World E → Bool
  is_backed request w = elim request.link_issue_idempotency_key [
    | none ↦ false
    | some link ↦ elim (w.service.ledger (request.internal_user_id, link)) [
      | none ↦ issued_at_rest request.internal_user_id link w.env
      | some entry ↦ not (is_revoked_entry (some entry))
    ]
  ]

  -- An answer DELIVERY_READY is given only to a RESEND with an active subscription for an issue that
  -- is issued and not revoked in memory, or, where memory does not know it, in the rows at rest.
  pub delivery_is_backed :
      (request : IssuanceRequest) (w : World E) (ref : Option String)
      → (execute provider store request w).0
        ≡ ok (with_ref IssuanceOutcomeCategory.delivery_ready ref)
      → (request.operation ≡ IssuanceOperationType.resend)
        × (request.subscription_state ≡ some SubscriptionSnapshotState.active)
        × (is_backed request w ≡ true)
  unfolding execute execute_issue execute_resend execute_revoke validate_basics
  delivery_is_backed request w ref h = ground arith
