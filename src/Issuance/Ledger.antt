-- ===== src/Issuance/Ledger.antt =====
-- The in-memory ledger of `IssuanceService` as a state machine, over any sequence of calls.
use startprojectformillion.Base.{
  pair_beq_iff, Option-cases, ◌∙◌, string_eq, pair_eq, Option, true, ◌≡◌, ◌⊎◌, inl, inr, arith,
  some, none, refl, List, [], ◌∷◌,
}
use startprojectformillion.Issuance.Contracts.{
  IssuanceOutcomeCategory, IssuanceRequest, IssuanceServiceResult, IssuanceProviderPort,
  IssuanceOperationalStatePort,
}
use startprojectformillion.Issuance.Memory.{
  World, ServiceState, LedgerKey, LedgerState, LedgerEntry, with_ref, is_revoked_entry,
}
use startprojectformillion.Issuance.Issue.{execute_issue}
use startprojectformillion.Issuance.Resend.{execute_resend}
use startprojectformillion.Issuance.Revoke.{execute_revoke}
use startprojectformillion.Issuance.Service.{execute}

-- The answer that is kept for an entry.
abbrev pub cached_answer : Option LedgerEntry → Option IssuanceServiceResult
cached_answer none = none
cached_answer (some entry) = elim entry.state [
  | LedgerState.issued ↦ some (with_ref IssuanceOutcomeCategory.issued (some entry.issuance_ref))
  | LedgerState.revoked ↦ none
]

-- The cache of issue results is a function of the ledger.
abbrev pub IsConsistent : ServiceState → Type 0
IsConsistent s = (k : LedgerKey) → s.issue_idempotent_result k ≡ cached_answer (s.ledger k)

-- One key's entry before and after: it may appear; an issued entry stays as it is or is revoked; a
-- revoked entry stays as it is.
pub record LedgerMove (before after : Option LedgerEntry) : Type 0 where
  pub keeps_revoked :
      (e : LedgerEntry) → before ≡ some e → e.state ≡ LedgerState.revoked → after ≡ some e
  pub keeps_issued :
      (e : LedgerEntry)
      → before ≡ some e
      → e.state ≡ LedgerState.issued
      → (after ≡ some e) ⊎ (is_revoked_entry after ≡ true)

revoked_fixed :
    {before after : Option LedgerEntry}
    → LedgerMove before after
    → is_revoked_entry before ≡ true
    → after ≡ before
revoked_fixed {before} m r = elim (Option-cases before) [
  | inl absent ↦ ground arith
  | inr (e, found) ↦ ground (arith, m.keeps_revoked e)
]

issued_or_revoked :
    {before after : Option LedgerEntry} {e : LedgerEntry}
    → LedgerMove before after
    → before ≡ some e
    → (after ≡ some e) ⊎ (is_revoked_entry after ≡ true)
issued_or_revoked {e} m found = ground (arith, m.keeps_revoked e, m.keeps_issued e)

module _ {E : Type 0} (provider : IssuanceProviderPort E)
    (store : Option (IssuanceOperationalStatePort E)) where
  execute_issue-IsConsistent :
      (request : IssuanceRequest) (w : World E)
      → IsConsistent w.service
      → IsConsistent (execute_issue provider store request w).1.service
  unfolding execute_issue
  execute_issue-IsConsistent request w h k = ground (arith, h k)

  execute_issue-LedgerMove :
      (request : IssuanceRequest) (w : World E) (k : LedgerKey)
      → IsConsistent w.service
      → LedgerMove
          (w.service.ledger k)
          ((execute_issue provider store request w).1.service.ledger k)
  unfolding execute_issue
  execute_issue-LedgerMove request w k h = record {
    keeps_revoked = λ e p q.
        ground (arith, h k, pair_beq_iff (request.internal_user_id, request.idempotency_key) k);
    keeps_issued = λ e p q.
        ground (arith, h k, pair_beq_iff (request.internal_user_id, request.idempotency_key) k);
  }

  execute_resend-IsConsistent :
      (request : IssuanceRequest) (w : World E)
      → IsConsistent w.service
      → IsConsistent (execute_resend provider store request w).1.service
  unfolding execute_resend
  execute_resend-IsConsistent request w h k = ground (arith, h k)

  execute_revoke-IsConsistent :
      (request : IssuanceRequest) (w : World E)
      → IsConsistent w.service
      → IsConsistent (execute_revoke provider store request w).1.service
  unfolding execute_revoke
  execute_revoke-IsConsistent request w h k = ground (arith, h k)

  execute_resend-LedgerMove :
      (request : IssuanceRequest) (w : World E) (k : LedgerKey)
      → LedgerMove
          (w.service.ledger k)
          ((execute_resend provider store request w).1.service.ledger k)
  unfolding execute_resend
  execute_resend-LedgerMove request w k = elim (Option-cases request.link_issue_idempotency_key) [
    | inl absent ↦ record {
      keeps_revoked = λ e p q. ground arith;
      keeps_issued = λ e p q. ground arith;
    }
    | inr (link, present) ↦ record {
      keeps_revoked = λ e p q. ground (arith, pair_beq_iff (request.internal_user_id, link) k);
      keeps_issued = λ e p q. ground (arith, pair_beq_iff (request.internal_user_id, link) k);
    }
  ]

  execute_revoke-LedgerMove :
      (request : IssuanceRequest) (w : World E) (k : LedgerKey)
      → LedgerMove
          (w.service.ledger k)
          ((execute_revoke provider store request w).1.service.ledger k)
  unfolding execute_revoke
  execute_revoke-LedgerMove request w k = elim (Option-cases request.link_issue_idempotency_key) [
    | inl absent ↦ record {
      keeps_revoked = λ e p q. ground arith;
      keeps_issued = λ e p q. ground arith;
    }
    | inr (link, present) ↦ record {
      keeps_revoked = λ e p q. ground (arith, pair_beq_iff (request.internal_user_id, link) k);
      keeps_issued = λ e p q. ground (arith, pair_beq_iff (request.internal_user_id, link) k);
    }
  ]

  -- One call keeps the cache of issue results in step with the ledger.
  -- A call of the service keeps the cache of issue results in step with the ledger: a key has a cached
  -- result exactly if it is issued and not revoked, and the result shows the ledger's reference.
  pub execute-IsConsistent :
      (request : IssuanceRequest) (w : World E)
      → IsConsistent w.service
      → IsConsistent (execute provider store request w).1.service
  unfolding execute
  execute-IsConsistent request w h k = ground (
    arith,
    h k,
    execute_issue-IsConsistent request w h k,
    execute_resend-IsConsistent request w h k,
    execute_revoke-IsConsistent request w h k,
  )

  pub execute-LedgerMove :
      (request : IssuanceRequest) (w : World E) (k : LedgerKey)
      → IsConsistent w.service
      → LedgerMove (w.service.ledger k) ((execute provider store request w).1.service.ledger k)
  unfolding execute
  execute-LedgerMove request w k h =
      let issue = execute_issue-LedgerMove request w k h in
      let resend = execute_resend-LedgerMove request w k in
      let revoke = execute_revoke-LedgerMove request w k in
      record {
        keeps_revoked = λ e p q. ground (
          arith,
          issue.keeps_revoked e p q,
          resend.keeps_revoked e p q,
          revoke.keeps_revoked e p q,
        );
        keeps_issued = λ e p q.
            ground (
              arith,
              issue.keeps_issued e p q,
              resend.keeps_issued e p q,
              revoke.keeps_issued e p q,
            );
      }

  -- A process serves its calls one after the other, whether or not one of them raises.
  unfoldable pub run : List IssuanceRequest → World E → World E
  run [] w = w
  run (request ∷ rest) w = run rest (execute provider store request w).1

  pub run-IsConsistent :
      (requests : List IssuanceRequest) (w : World E)
      → IsConsistent w.service
      → IsConsistent (run requests w).service
  unfolding run
  run-IsConsistent [] w h = h
  run-IsConsistent (request ∷ rest) w h =
      run-IsConsistent rest (execute provider store request w).1 (execute-IsConsistent request w h)

  pub run-keeps_revoked :
      (requests : List IssuanceRequest) (w : World E) (k : LedgerKey)
      → IsConsistent w.service
      → is_revoked_entry (w.service.ledger k) ≡ true
      → (run requests w).service.ledger k ≡ w.service.ledger k
  unfolding run
  run-keeps_revoked [] w k h r = refl
  run-keeps_revoked (request ∷ rest) w k h r =
      let w' : World E = (execute provider store request w).1 in
      let same : w'.service.ledger k ≡ w.service.ledger k =
        revoked_fixed (execute-LedgerMove request w k h) r in
      run-keeps_revoked rest w' k (execute-IsConsistent request w h) (rw same r) ∙ same

  pub run-keeps_issued :
      (requests : List IssuanceRequest) (w : World E) (k : LedgerKey) (e : LedgerEntry)
      → IsConsistent w.service
      → w.service.ledger k ≡ some e
      → ((run requests w).service.ledger k ≡ some e)
        ⊎ (is_revoked_entry ((run requests w).service.ledger k) ≡ true)
  unfolding run
  run-keeps_issued [] w k e h r = inl r
  run-keeps_issued (request ∷ rest) w k e h r =
      let w' : World E = (execute provider store request w).1 in
      let h' = execute-IsConsistent request w h in
      elim (issued_or_revoked (execute-LedgerMove request w k h) r) [
        | inl same ↦ run-keeps_issued rest w' k e h' same
        | inr gone ↦ inr (rw (run-keeps_revoked rest w' k h' gone) gone)
      ]
