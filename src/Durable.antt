-- ===== src/Durable.antt =====
-- `IssuanceService` (backend/src/app/issuance/service.py) with `PostgresIssuanceStateRepository`
-- (backend/src/app/persistence/postgres_issuance_state.py) as its durable store, and a provider that
-- does not touch the database.
pub mod Mirror
pub mod Restart
use startprojectformillion.Base.{String, Option, some}
use startprojectformillion.Shared.{Exec, Result}
use startprojectformillion.Issuance.Contracts.{IssuanceProviderPort, IssuanceOperationalStatePort}
use startprojectformillion.Persistence.IssuanceState.{
  Db, fetch_by_issue_keys, issue_or_get, mark_revoked,
}

-- The database, and what the provider acts on.
pub record Surroundings (P : Type 0) : Type 0 where
  pub db : Db
  pub outside : P

module _ {P : Type 0} where
  abbrev pub on_db : {A : Type 0} → Exec Db A → Exec (Surroundings P) A
  on_db call s = let (r, db') = call s.db in (r, record s { db = db' })

  abbrev pub on_outside : {A : Type 0} → Exec P A → Exec (Surroundings P) A
  on_outside call s = let (r, outside') = call s.outside in (r, record s { outside = outside' })

  -- `IssuanceService(provider, operational_state=PostgresIssuanceStateRepository(pool))`
  abbrev pub postgres_store : IssuanceOperationalStatePort (Surroundings P)
  postgres_store = record {
    fetch_by_issue_keys = λ user key. on_db (fetch_by_issue_keys user key);
    issue_or_get = λ user key ref. on_db (issue_or_get user key ref);
    mark_revoked = λ user key. on_db (mark_revoked user key);
  }

  abbrev pub apart : IssuanceProviderPort P → IssuanceProviderPort (Surroundings P)
  apart provider = record {
    create_or_ensure_access =
        λ user key cid. on_outside (provider.create_or_ensure_access user key cid);
    revoke_access = λ user ref key cid. on_outside (provider.revoke_access user ref key cid);
    get_safe_delivery_instructions =
        λ user ref cid. on_outside (provider.get_safe_delivery_instructions user ref cid);
  }
