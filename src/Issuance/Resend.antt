-- ===== src/Issuance/Resend.antt =====
-- `IssuanceService._execute_resend` (backend/src/app/issuance/service.py).
use startprojectformillion.Base.{
  String, Option, none, some, put, if◌then◌else◌, not, string_eq, pair_eq,
}
use startprojectformillion.Shared.{Exec, ok, err, is_store_error, assertion_error}
use startprojectformillion.Issuance.Contracts.{
  IssuanceOutcomeCategory, IssuanceRequest, IssuanceServiceResult, GetSafeInstructionOutcome,
  ProviderGetSafeResult, IssuanceProviderPort, IssuanceStatePersistence,
  IssuanceOperationalStatePort, subscription_allows_issue_resend, issue_resend_denial_category,
}
use startprojectformillion.Issuance.Memory.{
  LedgerState, LedgerEntry, LedgerKey, World, is_empty_or_none, sync_revoked_memory, finish,
  persist_fail, plain, with_ref, entry_of_row,
}

-- The result of `get_safe_delivery_instructions`, from `if g.outcome is … READY` on.
unfoldable pub resend_provided :
    {E : Type 0} → IssuanceRequest → ProviderGetSafeResult → Exec (World E) IssuanceServiceResult
unfolding finish
resend_provided request g w =
    let rsk : LedgerKey = (request.internal_user_id, request.idempotency_key) in
    elim g.outcome [
      | GetSafeInstructionOutcome.ready ↦ elim g.instruction_ref [
        | none ↦ finish request (plain IssuanceOutcomeCategory.unsafe_to_deliver) w
        | some ref ↦
            if is_empty_or_none (some ref)
            then finish request (plain IssuanceOutcomeCategory.unsafe_to_deliver) w
            else finish request (with_ref IssuanceOutcomeCategory.delivery_ready (some ref))
                (record w {
                  service = record (w.service) {
                    resend_cached = put w.service.resend_cached rsk ref;
                  };
                })
      ]
      | GetSafeInstructionOutcome.unavailable ↦
          finish request (plain IssuanceOutcomeCategory.provider_unavailable) w
      | GetSafeInstructionOutcome.rejected ↦
          finish request (plain IssuanceOutcomeCategory.provider_rejected) w
      | GetSafeInstructionOutcome.unknown ↦
          finish request (plain IssuanceOutcomeCategory.unsafe_to_deliver) w
    ]

module _ {E : Type 0} (provider : IssuanceProviderPort E)
    (store : Option (IssuanceOperationalStatePort E)) where
  -- From `if le is None:` on, with `le` as found so far.
  unfoldable pub resend_entry :
      IssuanceRequest → Option LedgerEntry → Exec (World E) IssuanceServiceResult
  unfolding finish resend_provided
  resend_entry request none w = finish request (plain IssuanceOutcomeCategory.unsafe_to_deliver) w
  resend_entry request (some le) w = elim le.state [
    | LedgerState.revoked ↦ finish request (plain IssuanceOutcomeCategory.revoked) w
    | LedgerState.issued ↦
        elim (w.service.resend_cached (request.internal_user_id, request.idempotency_key)) [
          | some ref ↦ finish request (with_ref IssuanceOutcomeCategory.delivery_ready (some ref)) w
          | none ↦
              let (r, env') =
                provider.get_safe_delivery_instructions request.internal_user_id le.issuance_ref
                  request.correlation_id w.env in
              elim r [
                | err e ↦ (err e, record w { env = env' })
                | ok g ↦ resend_provided request g (record w { env = env' })
              ]
        ]
  ]

  -- `if le is None and store is not None:`
  unfoldable pub resend_durable : IssuanceRequest → String → Exec (World E) IssuanceServiceResult
  unfolding resend_entry persist_fail sync_revoked_memory finish
  resend_durable request link w = elim store [
    | none ↦ resend_entry request none w
    | some port ↦
        let (r, env') = port.fetch_by_issue_keys request.internal_user_id link w.env in
        elim r [
          | err e ↦
              if is_store_error e
              then persist_fail request (record w { env = env' })
              else (err e, record w { env = env' })
          | ok found ↦ elim found [
            | none ↦ resend_entry request none (record w { env = env' })
            | some row ↦ elim row.state [
              | IssuanceStatePersistence.revoked ↦
                  finish request (plain IssuanceOutcomeCategory.revoked) (record {
                    service =
                        sync_revoked_memory (request.internal_user_id, link)
                          row.provider_issuance_ref w.service;
                    env = env';
                  })
              | IssuanceStatePersistence.issued ↦
                  resend_entry request (some (entry_of_row row)) (record w { env = env' })
            ]
          ]
        ]
  ]

  unfoldable pub execute_resend : IssuanceRequest → Exec (World E) IssuanceServiceResult
  unfolding resend_durable finish subscription_allows_issue_resend issue_resend_denial_category
  execute_resend request w = elim request.link_issue_idempotency_key [
    | none ↦ (err assertion_error, w)
    | some link ↦
        if not (subscription_allows_issue_resend request.subscription_state)
        then finish request (plain (issue_resend_denial_category request.subscription_state)) w
        else elim (w.service.ledger (request.internal_user_id, link)) [
          | some le ↦ resend_entry request (some le) w
          | none ↦ resend_durable request link w
        ]
  ]
