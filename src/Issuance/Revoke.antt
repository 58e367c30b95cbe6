-- ===== src/Issuance/Revoke.antt =====
-- `IssuanceService._execute_revoke` (backend/src/app/issuance/service.py).
use startprojectformillion.Base.{String, Option, none, some, add, if◌then◌else◌, string_eq, pair_eq}
use startprojectformillion.Shared.{Exec, ok, err, is_store_error, assertion_error}
use startprojectformillion.Issuance.Contracts.{
  IssuanceOutcomeCategory, IssuanceRequest, IssuanceServiceResult, RevokeAccessOutcome,
  ProviderRevokeResult, IssuanceProviderPort, IssuanceStatePersistence,
  IssuanceOperationalStatePort,
}
use startprojectformillion.Issuance.Memory.{
  LedgerState, LedgerEntry, LedgerKey, ServiceState, World, sync_revoked_memory, finish,
  persist_fail, plain, entry_of_row,
}

-- `self._revoke_completed.add(rdone)`
abbrev pub mark_completed : LedgerKey → ServiceState → ServiceState
mark_completed rdone s = record s { revoke_completed = add s.revoke_completed rdone }

module _ {E : Type 0} (provider : IssuanceProviderPort E)
    (store : Option (IssuanceOperationalStatePort E)) where
  -- The provider said that access is revoked: write it at rest, then to memory.
  unfoldable pub revoke_confirmed :
      IssuanceRequest → String → LedgerEntry → Exec (World E) IssuanceServiceResult
  unfolding finish persist_fail sync_revoked_memory
  revoke_confirmed request link le w =
      let lk : LedgerKey = (request.internal_user_id, link) in
      let rdone : LedgerKey = (request.internal_user_id, request.idempotency_key) in
      elim store [
        | none ↦ finish request (plain IssuanceOutcomeCategory.revoked) (record w {
          service = mark_completed rdone (sync_revoked_memory lk le.issuance_ref w.service);
        })
        | some port ↦
            let (r, env') = port.mark_revoked request.internal_user_id link w.env in
            elim r [
              | err e ↦
                  if is_store_error e
                  then persist_fail request (record w { env = env' })
                  else (err e, record w { env = env' })
              | ok persisted ↦ elim persisted [
                | none ↦ persist_fail request (record w { env = env' })
                | some row ↦ finish request (plain IssuanceOutcomeCategory.revoked) (record {
                  service =
                      mark_completed rdone
                        (sync_revoked_memory lk row.provider_issuance_ref w.service);
                  env = env';
                })
              ]
            ]
      ]

  -- The result of `revoke_access`, from `if rr.outcome is … REVOKED` on.
  unfoldable pub revoke_provided :
      IssuanceRequest
      → String
      → LedgerEntry
      → ProviderRevokeResult
      → Exec (World E) IssuanceServiceResult
  unfolding revoke_confirmed finish
  revoke_provided request link le rr w = elim rr.outcome [
    | RevokeAccessOutcome.revoked ↦ revoke_confirmed request link le w
    | RevokeAccessOutcome.already_revoked ↦ revoke_confirmed request link le w
    | RevokeAccessOutcome.unavailable ↦
        finish request (plain IssuanceOutcomeCategory.provider_unavailable) w
    | RevokeAccessOutcome.rejected ↦
        finish request (plain IssuanceOutcomeCategory.provider_rejected) w
    | RevokeAccessOutcome.unknown ↦ finish request (plain IssuanceOutcomeCategory.internal_error) w
  ]

  -- From `if le is None:` on, with `le` as found so far.
  unfoldable pub revoke_entry :
      IssuanceRequest → String → Option LedgerEntry → Exec (World E) IssuanceServiceResult
  unfolding revoke_provided finish
  revoke_entry request link none w = finish request (plain IssuanceOutcomeCategory.not_entitled) w
  revoke_entry request link (some le) w = elim le.state [
    | LedgerState.revoked ↦ finish request (plain IssuanceOutcomeCategory.revoked) (record w {
      service = mark_completed (request.internal_user_id, request.idempotency_key) w.service;
    })
    | LedgerState.issued ↦
        let (r, env') =
          provider.revoke_access request.internal_user_id le.issuance_ref request.idempotency_key
            request.correlation_id w.env in
        elim r [
          | err e ↦ (err e, record w { env = env' })
          | ok rr ↦ revoke_provided request link le rr (record w { env = env' })
        ]
  ]

  -- `if le is None and store is not None:`
  unfoldable pub revoke_durable : IssuanceRequest → String → Exec (World E) IssuanceServiceResult
  unfolding revoke_entry persist_fail sync_revoked_memory finish
  revoke_durable request link w = elim store [
    | none ↦ revoke_entry request link none w
    | some port ↦
        let (r, env') = port.fetch_by_issue_keys request.internal_user_id link w.env in
        elim r [
          | err e ↦
              if is_store_error e
              then persist_fail request (record w { env = env' })
              else (err e, record w { env = env' })
          | ok found ↦ elim found [
            | none ↦
                finish request (plain IssuanceOutcomeCategory.not_entitled)
                  (record w { env = env' })
            | some row ↦ elim row.state [
              | IssuanceStatePersistence.revoked ↦
                  finish request (plain IssuanceOutcomeCategory.revoked) (record {
                    service =
                        sync_revoked_memory (request.internal_user_id, link)
                          row.provider_issuance_ref
                          (mark_completed (request.internal_user_id, request.idempotency_key)
                            w.service);
                    env = env';
                  })
              | IssuanceStatePersistence.issued ↦
                  revoke_entry request link (some (entry_of_row row)) (record w { env = env' })
            ]
          ]
        ]
  ]

  unfoldable pub execute_revoke : IssuanceRequest → Exec (World E) IssuanceServiceResult
  unfolding revoke_durable finish
  execute_revoke request w = elim request.link_issue_idempotency_key [
    | none ↦ (err assertion_error, w)
    | some link ↦
        if w.service.revoke_completed (request.internal_user_id, request.idempotency_key)
        then finish request (plain IssuanceOutcomeCategory.revoked) w
        else elim (w.service.ledger (request.internal_user_id, link)) [
          | some le ↦ revoke_entry request link (some le) w
          | none ↦ revoke_durable request link w
        ]
  ]
