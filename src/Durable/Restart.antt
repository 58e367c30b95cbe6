-- ===== src/Durable/Restart.antt =====
-- A process that restarts over the same database.
use startprojectformillion.Base.{
  String, some, true, ◌≡◌, ◌⊎◌, inl, inr, arith, eq_iff, List, [], ◌∷◌, Option-cases, Bool-cases,
  false,
}
use startprojectformillion.Shared.{ok}
use startprojectformillion.Issuance.Contracts.{
  IssuanceOperationType, IssuanceOutcomeCategory, IssuanceRequest, IssuanceProviderPort,
}
use startprojectformillion.Issuance.Memory.{
  World, LedgerEntry, fresh, plain, with_ref, is_revoked_entry, validate_basics,
}
use startprojectformillion.Issuance.Issue.{execute_issue}
use startprojectformillion.Issuance.Resend.{execute_resend}
use startprojectformillion.Issuance.Service.{execute}
use startprojectformillion.Issuance.Ledger.{run}
use startprojectformillion.Issuance.Gate.{IsRefusal}
use startprojectformillion.Persistence.IssuanceState.{select_by_keys, fetch_by_issue_keys}
use startprojectformillion.Durable.{Surroundings, postgres_store, apart}
use startprojectformillion.Durable.Mirror.{Mirrors, mirrored}
use startprojectformillion.Durable.Mirror.Calls.{execute-Mirrors}

-- A new process over the database that the old one left.
abbrev pub restarted : {P : Type 0} → World (Surroundings P) → World (Surroundings P)
restarted w = record w { service = fresh }

module _ {P : Type 0} (provider : IssuanceProviderPort P) where
  Mirrors-fresh : (w : World (Surroundings P)) → Mirrors fresh w.env.db.rows
  Mirrors-fresh w u k e found = cc

  pub run-Mirrors :
      (requests : List IssuanceRequest) (w : World (Surroundings P))
      → Mirrors w.service w.env.db.rows
      → let w' = run (apart provider) (some postgres_store) requests w in
        Mirrors w'.service w'.env.db.rows
  unfolding run
  run-Mirrors [] w h = h
  run-Mirrors (request ∷ rest) w h =
      run-Mirrors rest (execute (apart provider) (some postgres_store) request w).1
        (execute-Mirrors provider request w h)

  -- After any calls of a process, started over any database, whatever the faults of the database: for
  -- each key in the ledger in memory there is a row at rest with the entry's reference, and the row
  -- is revoked if the entry is.
  pub ledger_is_mirrored :
      (requests : List IssuanceRequest) (start : World (Surroundings P)) (user key : String)
      (e : LedgerEntry)
      → start.service ≡ fresh
      → (run (apart provider) (some postgres_store) requests start).service.ledger (user, key)
        ≡ some e
      → mirrored e (
          select_by_keys user key
            (run (apart provider) (some postgres_store) requests start).env.db.rows)
        ≡ true
  ledger_is_mirrored requests start user key e new held =
      run-Mirrors requests start (rw new (Mirrors-fresh start)) user key e held

  restarted_issue :
      (again : IssuanceRequest) (w : World (Surroundings P)) (e : LedgerEntry)
      → mirrored e (select_by_keys again.internal_user_id again.idempotency_key w.env.db.rows)
        ≡ true
      → again.operation ≡ IssuanceOperationType.issue
      → let (r, w') = execute (apart provider) (some postgres_store) again (restarted w) in
        (w'.env.outside ≡ w.env.outside)
        × ((r ≡ ok (with_ref IssuanceOutcomeCategory.already_issued (some e.issuance_ref)))
            ⊎ IsRefusal r)
        × (is_revoked_entry (some e) ≡ true → IsRefusal r)
  unfolding execute execute_issue validate_basics fetch_by_issue_keys
  restarted_issue again w e m op =
      elim (Option-cases
        (select_by_keys again.internal_user_id again.idempotency_key w.env.db.rows)) [
          | inl absent ↦ (ground arith, ground arith, λ gone. ground arith)
          | inr (row, there) ↦ (
            ground arith,
            ground (arith, eq_iff row.provider_issuance_ref e.issuance_ref),
            λ gone. ground arith,
          )
        ]

  restarted_resend :
      (again : IssuanceRequest) (w : World (Surroundings P)) (e : LedgerEntry) (link : String)
      → mirrored e (select_by_keys again.internal_user_id link w.env.db.rows) ≡ true
      → again.operation ≡ IssuanceOperationType.resend
      → again.link_issue_idempotency_key ≡ some link
      → is_revoked_entry (some e) ≡ true
      → let (r, w') = execute (apart provider) (some postgres_store) again (restarted w) in
        (w'.env.outside ≡ w.env.outside)
        × ((r ≡ ok (plain IssuanceOutcomeCategory.revoked)) ⊎ IsRefusal r)
  unfolding execute execute_resend validate_basics fetch_by_issue_keys
  restarted_resend again w e link m op present gone = ground arith

  -- After any calls of a first process, started over any database, a new process over the database
  -- that they leave never calls the provider for an ISSUE whose key the first had in its ledger:
  -- it answers ALREADY_ISSUED with the reference of the first, or a refusal; and a refusal if the
  -- first had revoked the key. The faults of the database are arbitrary.
  pub restart_grants_once :
      (requests : List IssuanceRequest) (start : World (Surroundings P)) (again : IssuanceRequest)
      (e : LedgerEntry)
      → start.service ≡ fresh
      → let w = run (apart provider) (some postgres_store) requests start in
        w.service.ledger (again.internal_user_id, again.idempotency_key) ≡ some e
        → again.operation ≡ IssuanceOperationType.issue
        → let (r, w') = execute (apart provider) (some postgres_store) again (restarted w) in
          (w'.env.outside ≡ w.env.outside)
          × ((r ≡ ok (with_ref IssuanceOutcomeCategory.already_issued (some e.issuance_ref)))
              ⊎ IsRefusal r)
          × ((is_revoked_entry (some e) ≡ false) ⊎ IsRefusal r)
  restart_grants_once requests start again e new held op =
      let w : World (Surroundings P) = run (apart provider) (some postgres_store) requests start in
      let mirror =
        run-Mirrors requests start (rw new (Mirrors-fresh start)) again.internal_user_id
          again.idempotency_key e held in
      let (still, answer, gone) = restarted_issue again w e mirror op in
      (
        still,
        answer,
        elim (Bool-cases (is_revoked_entry (some e))) [
          | inl revoked ↦ inr (gone revoked)
          | inr issued ↦ inl issued
        ],
      )

  -- After any calls of a first process, started over any database, a new process over the database
  -- that they leave never calls the provider for a RESEND of an issue that the first had revoked: it
  -- answers REVOKED or a refusal. The faults of the database are arbitrary.
  pub restart_keeps_revoked :
      (requests : List IssuanceRequest) (start : World (Surroundings P)) (again : IssuanceRequest)
      (e : LedgerEntry) (link : String)
      → start.service ≡ fresh
      → let w = run (apart provider) (some postgres_store) requests start in
        w.service.ledger (again.internal_user_id, link) ≡ some e
        → is_revoked_entry (some e) ≡ true
        → again.operation ≡ IssuanceOperationType.resend
        → again.link_issue_idempotency_key ≡ some link
        → let (r, w') = execute (apart provider) (some postgres_store) again (restarted w) in
          (w'.env.outside ≡ w.env.outside)
          × ((r ≡ ok (plain IssuanceOutcomeCategory.revoked)) ⊎ IsRefusal r)
  restart_keeps_revoked requests start again e link new held gone op present =
      restarted_resend again (run (apart provider) (some postgres_store) requests start) e link
        (run-Mirrors requests start (rw new (Mirrors-fresh start)) again.internal_user_id link e
          held)
        op present gone
