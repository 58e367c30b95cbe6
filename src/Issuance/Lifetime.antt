-- ===== src/Issuance/Lifetime.antt =====
-- What one ISSUE or one REVOKE of `IssuanceService` settles for the rest of the process, whatever
-- calls come in between.
use startprojectformillion.Base.{
  String, string_eq, pair_eq, Option, true, false, ◌≡◌, ◌⊎◌, inl, inr, arith, some, List, eq_refl,
}
use startprojectformillion.Shared.{ok}
use startprojectformillion.Issuance.Contracts.{
  IssuanceOperationType, IssuanceOutcomeCategory, IssuanceRequest, IssuanceProviderPort,
  IssuanceOperationalStatePort,
}
use startprojectformillion.Issuance.Memory.{
  World, LedgerState, LedgerEntry, validate_basics, plain, with_ref, is_revoked_entry,
}
use startprojectformillion.Issuance.Issue.{execute_issue}
use startprojectformillion.Issuance.Resend.{execute_resend}
use startprojectformillion.Issuance.Revoke.{execute_revoke}
use startprojectformillion.Issuance.Service.{execute}
use startprojectformillion.Issuance.Gate.{IsRefusal}
use startprojectformillion.Issuance.Ledger.{
  IsConsistent, run, run-IsConsistent, run-keeps_issued, run-keeps_revoked, execute-IsConsistent,
}

-- An ISSUE with this key, or a RESEND of the issue with this key.
abbrev pub ForIssue : IssuanceRequest → String → Type 0
ForIssue request link =
    (request.operation ≡ IssuanceOperationType.issue) × (request.idempotency_key ≡ link)
    ⊎ (request.operation ≡ IssuanceOperationType.resend)
      × (request.link_issue_idempotency_key ≡ some link)

abbrev pub issued_entry : String → LedgerEntry
issued_entry ref = record { issuance_ref = ref; state = LedgerState.issued }

module _ {E : Type 0} (provider : IssuanceProviderPort E)
    (store : Option (IssuanceOperationalStatePort E)) where
  -- An answer ISSUED leaves an issued entry with the reference that it shows.
  issued-ledger :
      (request : IssuanceRequest) (w : World E) (ref : String)
      → (execute provider store request w).0
        ≡ ok (with_ref IssuanceOutcomeCategory.issued (some ref))
      → (execute provider store request w).1.service.ledger
          (request.internal_user_id, request.idempotency_key)
        ≡ some (issued_entry ref)
  unfolding execute execute_issue execute_resend execute_revoke validate_basics
  issued-ledger request w ref h =
      ground (arith, eq_refl request.internal_user_id, eq_refl request.idempotency_key)

  -- ISSUE for a key whose entry is issued answers from memory.
  issue_again :
      (request : IssuanceRequest) (w : World E) (ref : String)
      → IsConsistent w.service
      → request.operation ≡ IssuanceOperationType.issue
      → w.service.ledger (request.internal_user_id, request.idempotency_key)
        ≡ some (issued_entry ref)
      → let (r, w') = execute provider store request w in
        (w'.env ≡ w.env)
        × ((r ≡ ok (with_ref IssuanceOutcomeCategory.already_issued (some ref))) ⊎ IsRefusal r)
  unfolding execute execute_issue validate_basics
  issue_again request w ref h op found =
      ground (arith, h (request.internal_user_id, request.idempotency_key))

  -- ISSUE and RESEND for a revoked key call nothing and grant nothing.
  revoked_key :
      (request : IssuanceRequest) (w : World E) (link : String)
      → ForIssue request link
      → is_revoked_entry (w.service.ledger (request.internal_user_id, link)) ≡ true
      → let (r, w') = execute provider store request w in
        (w'.env ≡ w.env) × ((r ≡ ok (plain IssuanceOutcomeCategory.revoked)) ⊎ IsRefusal r)
  unfolding execute execute_issue execute_resend validate_basics
  revoked_key request w link (inl op) gone = ground arith
  revoked_key request w link (inr op) gone = ground arith

  -- A first answer REVOKED to a REVOKE leaves a revoked entry for the linked key.
  revoke-ledger :
      (request : IssuanceRequest) (w : World E) (link : String)
      → request.operation ≡ IssuanceOperationType.revoke
      → request.link_issue_idempotency_key ≡ some link
      → w.service.revoke_completed (request.internal_user_id, request.idempotency_key) ≡ false
      → (execute provider store request w).0 ≡ ok (plain IssuanceOutcomeCategory.revoked)
      → is_revoked_entry
          ((execute provider store request w).1.service.ledger (request.internal_user_id, link))
        ≡ true
  unfolding execute execute_revoke validate_basics
  revoke-ledger request w link op present new h =
      ground (arith, eq_refl request.internal_user_id, eq_refl link)

  issue_of_revoked :
      (request : IssuanceRequest) (w : World E)
      → request.operation ≡ IssuanceOperationType.issue
      → is_revoked_entry (w.service.ledger (request.internal_user_id, request.idempotency_key))
        ≡ true
      → let (r, w') = execute provider store request w in (w'.env ≡ w.env) × IsRefusal r
  unfolding execute execute_issue validate_basics
  issue_of_revoked request w op gone = ground arith

  -- Once a call has answered ISSUED with a reference, and after any further calls of the process,
  -- an ISSUE with the same user and key calls neither the provider nor the store, and answers
  -- ALREADY_ISSUED with that same reference or a refusal.
  pub grants_once :
      (request again : IssuanceRequest) (between : List IssuanceRequest) (w : World E)
      (ref : String)
      → IsConsistent w.service
      → (execute provider store request w).0
        ≡ ok (with_ref IssuanceOutcomeCategory.issued (some ref))
      → again.operation ≡ IssuanceOperationType.issue
      → again.internal_user_id ≡ request.internal_user_id
      → again.idempotency_key ≡ request.idempotency_key
      → let later = run provider store between (execute provider store request w).1 in
        let (r, w') = execute provider store again later in
        (w'.env ≡ later.env)
        × ((r ≡ ok (with_ref IssuanceOutcomeCategory.already_issued (some ref))) ⊎ IsRefusal r)
  grants_once request again between w ref h first op user key =
      let w1 : World E = (execute provider store request w).1 in
      let h1 = execute-IsConsistent provider store request w h in
      let later : World E = run provider store between w1 in
      let h2 = run-IsConsistent provider store between w1 h1 in
      elim (run-keeps_issued provider store between w1
        (request.internal_user_id, request.idempotency_key) (issued_entry ref) h1
        (issued-ledger request w ref first)) [
          | inl kept ↦ issue_again again later ref h2 op (rw (user, key) kept)
          | inr gone ↦
              let refused = issue_of_revoked again later op (rw (user, key) gone) in
              (refused.0, inr refused.1)
        ]

  -- Once a REVOKE with a new key has answered REVOKED for a linked issue, and after any further calls
  -- of the process, an ISSUE or a RESEND for that issue calls neither the provider nor the store, and
  -- answers REVOKED or a refusal.
  pub revoke_is_final :
      (request again : IssuanceRequest) (between : List IssuanceRequest) (w : World E)
      (link : String)
      → IsConsistent w.service
      → request.operation ≡ IssuanceOperationType.revoke
      → request.link_issue_idempotency_key ≡ some link
      → w.service.revoke_completed (request.internal_user_id, request.idempotency_key) ≡ false
      → (execute provider store request w).0 ≡ ok (plain IssuanceOutcomeCategory.revoked)
      → again.internal_user_id ≡ request.internal_user_id
      → ForIssue again link
      → let later = run provider store between (execute provider store request w).1 in
        let (r, w') = execute provider store again later in
        (w'.env ≡ later.env) × ((r ≡ ok (plain IssuanceOutcomeCategory.revoked)) ⊎ IsRefusal r)
  revoke_is_final request again between w link h op present new done user for =
      let w1 : World E = (execute provider store request w).1 in
      let gone = revoke-ledger request w link op present new done in
      let same =
        run-keeps_revoked provider store between w1 (request.internal_user_id, link)
          (execute-IsConsistent provider store request w h) gone in
      revoked_key again (run provider store between w1) link for (rw user (rw same gone))
