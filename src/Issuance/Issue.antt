-- ===== src/Issuance/Issue.antt =====
-- `IssuanceService._execute_issue` (backend/src/app/issuance/service.py) over any provider and any
-- durable store. An `await` is a call on the surroundings.
use startprojectformillion.Base.{Option, none, some, if◌then◌else◌, not}
use startprojectformillion.Shared.{Exec, ok, err, is_store_error}
use startprojectformillion.Issuance.Contracts.{
  IssuanceOutcomeCategory, IssuanceRequest, IssuanceServiceResult, CreateAccessOutcome,
  ProviderCreateResult, IssuanceProviderPort, IssuanceStatePersistence,
  IssuanceOperationalStatePort, subscription_allows_issue_resend, issue_resend_denial_category,
}
use startprojectformillion.Issuance.Memory.{
  LedgerKey, World, is_empty_or_none, sync_issued_memory, sync_from_durable_issued_row, finish,
  persist_fail, plain, with_ref, is_revoked_entry,
}

module _ {E : Type 0} (provider : IssuanceProviderPort E)
    (store : Option (IssuanceOperationalStatePort E)) where
  -- The result of `create_or_ensure_access`, from `if pr.outcome is CreateAccessOutcome.SUCCESS` on.
  unfoldable pub issue_provided :
      IssuanceRequest → ProviderCreateResult → Exec (World E) IssuanceServiceResult
  unfolding finish persist_fail sync_issued_memory
  issue_provided request pr w =
      let lk : LedgerKey = (request.internal_user_id, request.idempotency_key) in
      elim pr.outcome [
        | CreateAccessOutcome.success ↦ elim pr.issuance_ref [
          | none ↦ finish request (plain IssuanceOutcomeCategory.internal_error) w
          | some ref ↦
              if is_empty_or_none (some ref)
              then finish request (plain IssuanceOutcomeCategory.internal_error) w
              else elim store [
                | none ↦
                    finish request (with_ref IssuanceOutcomeCategory.issued (some ref))
                      (record w { service = sync_issued_memory lk ref w.service })
                | some port ↦
                    let (r, env') =
                      port.issue_or_get request.internal_user_id request.idempotency_key ref
                        w.env in
                    elim r [
                      | err e ↦
                          if is_store_error e
                          then persist_fail request (record w { env = env' })
                          else (err e, record w { env = env' })
                      | ok row ↦
                          finish request
                            (with_ref IssuanceOutcomeCategory.issued
                              (some row.provider_issuance_ref))
                            (record {
                              service = sync_issued_memory lk row.provider_issuance_ref w.service;
                              env = env';
                            })
                    ]
              ]
        ]
        | CreateAccessOutcome.unavailable ↦
            finish request (plain IssuanceOutcomeCategory.provider_unavailable) w
        | CreateAccessOutcome.rejected ↦
            finish request (plain IssuanceOutcomeCategory.provider_rejected) w
        | CreateAccessOutcome.unknown ↦
            finish request (plain IssuanceOutcomeCategory.internal_error) w
      ]

  -- The call of the provider, which may raise.
  unfoldable pub issue_create : IssuanceRequest → Exec (World E) IssuanceServiceResult
  unfolding issue_provided
  issue_create request w =
      let (r, env') =
        provider.create_or_ensure_access request.internal_user_id request.idempotency_key
          request.correlation_id w.env in
      elim r [
        | err e ↦ (err e, record w { env = env' })
        | ok pr ↦ issue_provided request pr (record w { env = env' })
      ]

  -- `if store is not None:` and what follows it in `_execute_issue`
  unfoldable pub issue_durable : IssuanceRequest → Exec (World E) IssuanceServiceResult
  unfolding issue_create finish persist_fail sync_from_durable_issued_row
  issue_durable request w = elim store [
    | none ↦ issue_create request w
    | some port ↦
        let (r, env') =
          port.fetch_by_issue_keys request.internal_user_id request.idempotency_key w.env in
        elim r [
          | err e ↦
              if is_store_error e
              then persist_fail request (record w { env = env' })
              else (err e, record w { env = env' })
          | ok found ↦ elim found [
            | none ↦ issue_create request (record w { env = env' })
            | some row ↦ elim row.state [
              | IssuanceStatePersistence.issued ↦
                  finish request
                    (with_ref IssuanceOutcomeCategory.already_issued
                      (some row.provider_issuance_ref))
                    (record {
                      service =
                          sync_from_durable_issued_row
                            (request.internal_user_id, request.idempotency_key) row w.service;
                      env = env';
                    })
              | IssuanceStatePersistence.revoked ↦
                  finish request (plain IssuanceOutcomeCategory.internal_error)
                    (record w { env = env' })
            ]
          ]
        ]
  ]

  unfoldable pub execute_issue : IssuanceRequest → Exec (World E) IssuanceServiceResult
  unfolding issue_durable finish subscription_allows_issue_resend issue_resend_denial_category
  execute_issue request w =
      let lk : LedgerKey = (request.internal_user_id, request.idempotency_key) in
      if not (subscription_allows_issue_resend request.subscription_state)
      then finish request (plain (issue_resend_denial_category request.subscription_state)) w
      else if is_revoked_entry (w.service.ledger lk)
      then finish request (plain IssuanceOutcomeCategory.internal_error) w
      else elim (w.service.issue_idempotent_result lk) [
        | some cached ↦
            finish request (with_ref IssuanceOutcomeCategory.already_issued cached.safe_ref) w
        | none ↦ issue_durable request w
      ]
