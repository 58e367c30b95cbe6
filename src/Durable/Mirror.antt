-- ===== src/Durable/Mirror.antt =====
-- The ledger in memory never claims more than the rows at rest.
pub mod Calls
use startprojectformillion.Base.{
  ℕ, String, Bool, true, false, ◌&&◌, ◌||◌, not, Option, none, some, List, [], ◌∷◌, ◌≡◌, ◌⊎◌, inl,
  inr, refl, arith, eq_refl, eq_iff, str_eq, if◌then◌else◌, Option-cases, Bool-cases, pair_beq_iff,
  string_eq, pair_eq,
}
use startprojectformillion.Shared.{Result, ok, err, Result-cases}
use startprojectformillion.Issuance.Contracts.{
  IssuanceRequest, IssuanceProviderPort, IssuanceStatePersistence, IssuanceStateRow,
  ProviderCreateResult,
}
use startprojectformillion.Issuance.Memory.{
  World, ServiceState, LedgerEntry, LedgerState, is_revoked_entry, is_revoked_row,
}
use startprojectformillion.Issuance.Issue.{issue_provided, execute_issue}
use startprojectformillion.Issuance.Resend.{execute_resend}
use startprojectformillion.Issuance.Revoke.{execute_revoke}
use startprojectformillion.Issuance.Service.{execute}
use startprojectformillion.Persistence.IssuanceState.{
  Db, select_by_keys, fetch_by_issue_keys, issue_or_get, mark_revoked, new_row, revoke_row,
}
use startprojectformillion.Persistence.IssuanceState.Contract.{
  RowMove, issue_or_get_keeps, issue_or_get_lem, mark_revoked-RowMove, mark_revoked_lem,
}
use startprojectformillion.Durable.{Surroundings, postgres_store, apart}

-- The row has the entry's reference, and is revoked if the entry is.
abbrev pub mirrored : LedgerEntry → Option IssuanceStateRow → Bool
mirrored e none = false
mirrored e (some row) =
    str_eq row.provider_issuance_ref e.issuance_ref
    && (not (is_revoked_entry (some e)) || is_revoked_row row)

abbrev pub Mirrors : ServiceState → List IssuanceStateRow → Type 0
Mirrors s rows =
    (u k : String) (e : LedgerEntry)
    → s.ledger (u, k) ≡ some e
    → mirrored e (select_by_keys u k rows) ≡ true

-- A row keeps mirroring an entry as it moves.
mirrored-RowMove :
    (e : LedgerEntry) (now : ℕ) (before after : Option IssuanceStateRow)
    → RowMove now before after
    → mirrored e before ≡ true
    → mirrored e after ≡ true
unfolding revoke_row
mirrored-RowMove e now none after m h = ground arith
mirrored-RowMove e now (some row) after m h = ground (arith, m row refl)

-- The rows mirror an entry after each call of the repository, if they did before.
mirrored-issue_or_get :
    (user key ref u k : String) (db : Db) (e : LedgerEntry)
    → mirrored e (select_by_keys u k db.rows) ≡ true
    → mirrored e (select_by_keys u k (issue_or_get user key ref db).1.rows) ≡ true
mirrored-issue_or_get user key ref u k db e =
    mirrored-RowMove e db.now _ _ (λ row h. inl (issue_or_get_keeps user key ref u k db row h))

pub mirrored-mark_revoked :
    (user key u k : String) (db : Db) (e : LedgerEntry)
    → mirrored e (select_by_keys u k db.rows) ≡ true
    → mirrored e (select_by_keys u k (mark_revoked user key db).1.rows) ≡ true
mirrored-mark_revoked user key u k db e =
    mirrored-RowMove e db.now _ _ (mark_revoked-RowMove user key u k db)

pub rows-fetch : (user key : String) (db : Db) → (fetch_by_issue_keys user key db).1.rows ≡ db.rows
unfolding fetch_by_issue_keys
rows-fetch user key db = ground arith

pub fetch_lem :
    (user key : String) (db : Db) (found : Option IssuanceStateRow)
    → (fetch_by_issue_keys user key db).0 ≡ ok found
    → select_by_keys user key db.rows ≡ found
unfolding fetch_by_issue_keys
fetch_lem user key db found h = ground arith

module _ {P : Type 0} (provider : IssuanceProviderPort P) where
  pub issue_provided-Mirrors :
      (request : IssuanceRequest) (pr : ProviderCreateResult) (w : World (Surroundings P))
      → Mirrors w.service w.env.db.rows
      → let w' = (issue_provided (apart provider) (some postgres_store) request pr w).1 in
        Mirrors w'.service w'.env.db.rows
  unfolding issue_provided
  issue_provided-Mirrors request pr w h u k e found = elim (Option-cases pr.issuance_ref) [
    | inl absent ↦ ground (arith, h u k e)
    | inr (ref, present) ↦
        let user = request.internal_user_id in
        let key = request.idempotency_key in
        let kept = mirrored-issue_or_get user key ref u k w.env.db e in
        elim (Result-cases (issue_or_get user key ref w.env.db).0) [
          | inl (x, raised) ↦ ground (arith, h u k e, kept)
          | inr (row, returned) ↦ ground (
            arith,
            h u k e,
            kept,
            eq_refl row.provider_issuance_ref,
            issue_or_get_lem user key ref w.env.db row returned,
            eq_iff user u,
            eq_iff key k,
          )
        ]
  ]
