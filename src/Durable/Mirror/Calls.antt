-- ===== src/Durable/Mirror/Calls.antt =====
-- Every call of `IssuanceService` over the Postgres store keeps the ledger within the rows at rest.
use startprojectformillion.Base.{
  String, Option, none, some, inl, inr, refl, arith, eq_refl, eq_iff, Option-cases, pair_eq,
  string_eq,
}
use startprojectformillion.Shared.{Result-cases}
use startprojectformillion.Issuance.Contracts.{IssuanceRequest, IssuanceProviderPort}
use startprojectformillion.Issuance.Memory.{World, LedgerEntry, entry_of_row}
use startprojectformillion.Issuance.Issue.{issue_create, issue_durable, execute_issue}
use startprojectformillion.Issuance.Resend.{resend_entry, resend_durable, execute_resend}
use startprojectformillion.Issuance.Revoke.{
  revoke_confirmed, revoke_provided, revoke_entry, revoke_durable, execute_revoke,
}
use startprojectformillion.Issuance.Service.{execute}
use startprojectformillion.Persistence.IssuanceState.{Db, fetch_by_issue_keys, mark_revoked}
use startprojectformillion.Persistence.IssuanceState.Contract.{mark_revoked_lem}
use startprojectformillion.Durable.{Surroundings, postgres_store, apart}
use startprojectformillion.Durable.Mirror.{
  Mirrors, rows-fetch, fetch_lem, issue_provided-Mirrors, mirrored-mark_revoked,
}

module _ {P : Type 0} (provider : IssuanceProviderPort P) where
  abbrev Keeps : World (Surroundings P) → World (Surroundings P) → Type 0
  Keeps w w' = Mirrors w.service w.env.db.rows → Mirrors w'.service w'.env.db.rows

  issue_create-Mirrors :
      (request : IssuanceRequest) (w : World (Surroundings P))
      → Keeps w (issue_create (apart provider) (some postgres_store) request w).1
  unfolding issue_create
  issue_create-Mirrors request w h u k e found =
      grind (arith, h u k e, issue_provided-Mirrors provider)

  issue_durable-Mirrors :
      (request : IssuanceRequest) (w : World (Surroundings P))
      → Keeps w (issue_durable (apart provider) (some postgres_store) request w).1
  unfolding issue_durable
  issue_durable-Mirrors request w h =
      let user = request.internal_user_id in
      let key = request.idempotency_key in
      let db' : Db = (fetch_by_issue_keys user key w.env.db).1 in
      let w' : World (Surroundings P) = record w { env = record (w.env) { db = db' } } in
      let h' : Mirrors w'.service w'.env.db.rows = rw (rows-fetch user key w.env.db) h in
      elim (Result-cases (fetch_by_issue_keys user key w.env.db).0) [
        | inl (x, raised) ↦ λ u k e found. ground (arith, h' u k e)
        | inr (none, missing) ↦
            λ u k e found. ground (arith, issue_create-Mirrors request w' h' u k e)
        | inr (some row, there) ↦ λ u k e found. ground (
          arith,
          h' u k e,
          rows-fetch user key w.env.db,
          fetch_lem user key w.env.db (some row) there,
          eq_refl row.provider_issuance_ref,
          eq_iff user u,
          eq_iff key k,
        )
      ]

  execute_issue-Mirrors :
      (request : IssuanceRequest) (w : World (Surroundings P))
      → Keeps w (execute_issue (apart provider) (some postgres_store) request w).1
  unfolding execute_issue
  execute_issue-Mirrors request w h u k e found =
      ground (arith, h u k e, issue_durable-Mirrors request w h u k e)

  resend_entry-Mirrors :
      (request : IssuanceRequest) (le : Option LedgerEntry) (w : World (Surroundings P))
      → Keeps w (resend_entry (apart provider) (some postgres_store) request le w).1
  unfolding resend_entry
  resend_entry-Mirrors request le w h u k e found = ground (arith, h u k e)

  resend_durable-Mirrors :
      (request : IssuanceRequest) (link : String) (w : World (Surroundings P))
      → Keeps w (resend_durable (apart provider) (some postgres_store) request link w).1
  unfolding resend_durable
  resend_durable-Mirrors request link w h =
      let user = request.internal_user_id in
      let db' : Db = (fetch_by_issue_keys user link w.env.db).1 in
      let w' : World (Surroundings P) = record w { env = record (w.env) { db = db' } } in
      let h' : Mirrors w'.service w'.env.db.rows = rw (rows-fetch user link w.env.db) h in
      elim (Result-cases (fetch_by_issue_keys user link w.env.db).0) [
        | inl (x, raised) ↦ λ u k e found. ground (arith, h' u k e)
        | inr (none, missing) ↦
            λ u k e found. ground (arith, resend_entry-Mirrors request none w' h' u k e)
        | inr (some row, there) ↦ λ u k e found. ground (
          arith,
          h' u k e,
          rows-fetch user link w.env.db,
          fetch_lem user link w.env.db (some row) there,
          eq_refl row.provider_issuance_ref,
          eq_iff user u,
          eq_iff link k,
        )
      ]

  execute_resend-Mirrors :
      (request : IssuanceRequest) (w : World (Surroundings P))
      → Keeps w (execute_resend (apart provider) (some postgres_store) request w).1
  unfolding execute_resend
  execute_resend-Mirrors request w h u k e found = grind (arith, h u k e, resend_durable-Mirrors)

  revoke_confirmed-Mirrors :
      (request : IssuanceRequest) (link : String) (le : LedgerEntry) (w : World (Surroundings P))
      → Keeps w (revoke_confirmed (apart provider) (some postgres_store) request link le w).1
  unfolding revoke_confirmed
  revoke_confirmed-Mirrors request link le w h u k e found =
      let user = request.internal_user_id in
      let kept = mirrored-mark_revoked user link u k w.env.db e in
      elim (Result-cases (mark_revoked user link w.env.db).0) [
        | inl (x, raised) ↦ ground (arith, h u k e, kept)
        | inr (none, missing) ↦ ground (arith, h u k e, kept)
        | inr (some row, returned) ↦
            let facts = mark_revoked_lem user link w.env.db (some row) returned in
            ground (
              arith,
              h u k e,
              kept,
              facts.0,
              facts.1 row refl,
              eq_refl row.provider_issuance_ref,
              eq_iff user u,
              eq_iff link k,
            )
      ]

  revoke_entry-Mirrors :
      (request : IssuanceRequest) (link : String) (le : Option LedgerEntry)
      (w : World (Surroundings P))
      → Keeps w (revoke_entry (apart provider) (some postgres_store) request link le w).1
  unfolding revoke_entry revoke_provided
  revoke_entry-Mirrors request link none w h u k e found = ground (arith, h u k e)
  revoke_entry-Mirrors request link (some le) w h u k e found =
      let outside' : P =
        (provider.revoke_access request.internal_user_id le.issuance_ref request.idempotency_key
          request.correlation_id w.env.outside).1 in
      let w' : World (Surroundings P) = record w { env = record (w.env) { outside = outside' } } in
      ground (arith, h u k e, revoke_confirmed-Mirrors request link le w' h u k e)

  revoke_durable-Mirrors :
      (request : IssuanceRequest) (link : String) (w : World (Surroundings P))
      → Keeps w (revoke_durable (apart provider) (some postgres_store) request link w).1
  unfolding revoke_durable
  revoke_durable-Mirrors request link w h =
      let user = request.internal_user_id in
      let db' : Db = (fetch_by_issue_keys user link w.env.db).1 in
      let w' : World (Surroundings P) = record w { env = record (w.env) { db = db' } } in
      let h' : Mirrors w'.service w'.env.db.rows = rw (rows-fetch user link w.env.db) h in
      elim (Result-cases (fetch_by_issue_keys user link w.env.db).0) [
        | inl (x, raised) ↦ λ u k e found. ground (arith, h' u k e)
        | inr (none, missing) ↦ λ u k e found. ground (arith, h' u k e)
        | inr (some row, there) ↦ λ u k e found. ground (
          arith,
          h' u k e,
          rows-fetch user link w.env.db,
          fetch_lem user link w.env.db (some row) there,
          revoke_entry-Mirrors request link (some (entry_of_row row)) w' h' u k e,
          eq_refl row.provider_issuance_ref,
          eq_iff user u,
          eq_iff link k,
        )
      ]

  execute_revoke-Mirrors :
      (request : IssuanceRequest) (w : World (Surroundings P))
      → Keeps w (execute_revoke (apart provider) (some postgres_store) request w).1
  unfolding execute_revoke
  execute_revoke-Mirrors request w h u k e found =
      elim (Option-cases request.link_issue_idempotency_key) [
        | inl absent ↦ ground (arith, h u k e)
        | inr (link, present) ↦ ground (
          arith,
          h u k e,
          revoke_durable-Mirrors request link w h u k e,
          revoke_entry-Mirrors request link (w.service.ledger (request.internal_user_id, link)) w h
              u k e,
        )
      ]

  -- Every call, on every fault of the database and every answer of the provider, keeps the ledger
  -- in memory within the rows at rest.
  pub execute-Mirrors :
      (request : IssuanceRequest) (w : World (Surroundings P))
      → Mirrors w.service w.env.db.rows
      → let w' = (execute (apart provider) (some postgres_store) request w).1 in
        Mirrors w'.service w'.env.db.rows
  unfolding execute
  execute-Mirrors request w h u k e found = ground (
    arith,
    h u k e,
    execute_issue-Mirrors request w h u k e,
    execute_resend-Mirrors request w h u k e,
    execute_revoke-Mirrors request w h u k e,
  )
