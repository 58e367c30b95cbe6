-- ===== src/Persistence/IssuanceState/Contract.antt =====
-- What `PostgresIssuanceStateRepository` promises to `IssuanceService`, on every fault.
use startprojectformillion.Base.{
  ℕ, String, Option, none, some, List, [], ◌≡◌, ◌⊎◌, refl, arith, eq_refl, eq_iff,
}
use startprojectformillion.Shared.{ok}
use startprojectformillion.Issuance.Contracts.{IssuanceStatePersistence, IssuanceStateRow}
use startprojectformillion.Persistence.IssuanceState.{
  Db, select_by_keys, new_row, revoke_row, insert_or_select, update_or_select, issue_or_get,
  mark_revoked,
}
use startprojectformillion.Persistence.IssuanceState.Rows.{select-append, select-update}

-- One key's row before and after: it may appear; it is never overwritten or deleted; an issued row
-- may be revoked, with its reference and its creation time kept.
abbrev pub RowMove : ℕ → Option IssuanceStateRow → Option IssuanceStateRow → Type 0
RowMove now before after =
    (row : IssuanceStateRow)
    → before ≡ some row
    → (after ≡ some row)
      ⊎ ((row.state ≡ IssuanceStatePersistence.issued) × (after ≡ some (revoke_row now row)))

insert-RowMove :
    (u k ref v j : String) (now : ℕ) (rows : List IssuanceStateRow)
    → RowMove now
        (select_by_keys v j rows)
        (select_by_keys v j (insert_or_select u k ref now rows).1)
unfolding insert_or_select
insert-RowMove u k ref v j now rows row h = ground (arith, select-append u k v j rows ref now)

update-RowMove :
    (u k v j : String) (now : ℕ) (rows : List IssuanceStateRow)
    → RowMove now (select_by_keys v j rows) (select_by_keys v j (update_or_select u k now rows).1)
unfolding update_or_select
update-RowMove u k v j now rows row h =
    ground (arith, select-update u k v j now rows, eq_iff u v, eq_iff k j)

-- Whatever happens to the connection, `issue_or_get` changes no row that is there.
pub issue_or_get_keeps :
    (u k ref v j : String) (db : Db) (row : IssuanceStateRow)
    → select_by_keys v j db.rows ≡ some row
    → select_by_keys v j (issue_or_get u k ref db).1.rows ≡ some row
unfolding issue_or_get
issue_or_get_keeps u k ref v j db row h = ground (arith, select-append u k v j db.rows ref db.now)

pub mark_revoked-RowMove :
    (u k v j : String) (db : Db)
    → RowMove db.now (select_by_keys v j db.rows) (select_by_keys v j (mark_revoked u k db).1.rows)
unfolding mark_revoked
mark_revoked-RowMove u k v j db row h = ground (arith, update-RowMove u k v j db.now db.rows row)

pub issue_or_get_lem :
    (u k ref : String) (db : Db) (row : IssuanceStateRow)
    → (issue_or_get u k ref db).0 ≡ ok row
    → (select_by_keys u k (issue_or_get u k ref db).1.rows ≡ some row)
      × ((select_by_keys u k db.rows ≡ some row)
          ⊎ ((select_by_keys u k db.rows ≡ none) × (row ≡ new_row u k ref db.now)))
unfolding issue_or_get
issue_or_get_lem u k ref db row h =
    ground (arith, select-append u k u k db.rows ref db.now, eq_refl u, eq_refl k)

-- After a reply of `mark_revoked` the row at rest is the one returned and it is revoked; without a
-- row there was none.
pub mark_revoked_lem :
    (u k : String) (db : Db) (found : Option IssuanceStateRow)
    → (mark_revoked u k db).0 ≡ ok found
    → (select_by_keys u k (mark_revoked u k db).1.rows ≡ found)
      × ((row : IssuanceStateRow) → found ≡ some row → row.state ≡ IssuanceStatePersistence.revoked)
      × (found ≡ none → select_by_keys u k db.rows ≡ none)
unfolding mark_revoked revoke_row
mark_revoked_lem u k db found h = (
  ground (arith, select-update u k u k db.now db.rows, eq_refl u, eq_refl k),
  λ row e. ground (arith, select-update u k u k db.now db.rows, eq_refl u, eq_refl k),
  λ e. ground (arith, select-update u k u k db.now db.rows, eq_refl u, eq_refl k),
)

-- After `mark_revoked`, whatever happens to the connection, a row that was there is there as it was,
-- or it was issued and is there revoked, with its reference and its creation time.
pub mark_revoked_moves :
    (u k v j : String) (db : Db) (row : IssuanceStateRow)
    → select_by_keys v j db.rows ≡ some row
    → let after = select_by_keys v j (mark_revoked u k db).1.rows in
      (after ≡ some row)
      ⊎ (row.state ≡ IssuanceStatePersistence.issued) × (after ≡ some (revoke_row db.now row))
mark_revoked_moves u k v j db row h = mark_revoked-RowMove u k v j db row h

-- What the reply of `mark_revoked` says of the rows at rest before and after.
abbrev pub IsReply :
    Option IssuanceStateRow → Option IssuanceStateRow → Option IssuanceStateRow → Type 0
IsReply none before after = (before ≡ none) × (after ≡ none)
IsReply (some row) before after =
    (after ≡ some row) × (row.state ≡ IssuanceStatePersistence.revoked)

-- When `mark_revoked` returns a row, this is the row at rest and it is revoked; when it returns none,
-- there was no row and there is none.
pub mark_revoked-IsReply :
    (u k : String) (db : Db) (found : Option IssuanceStateRow)
    → (mark_revoked u k db).0 ≡ ok found
    → IsReply found (select_by_keys u k db.rows) (select_by_keys u k (mark_revoked u k db).1.rows)
mark_revoked-IsReply u k db none h =
    let facts = mark_revoked_lem u k db none h in (facts.2 refl, facts.0)
mark_revoked-IsReply u k db (some row) h =
    let facts = mark_revoked_lem u k db (some row) h in (facts.0, facts.1 row refl)

-- Marking a revoked key again, at any later time, returns the same row and changes no row.
pub mark_revoked_idem :
    (u k : String) (db : Db) (row : IssuanceStateRow)
    → select_by_keys u k db.rows ≡ some row
    → row.state ≡ IssuanceStatePersistence.revoked
    → db.faults ≡ []
    → mark_revoked u k db ≡ (ok (some row), db)
unfolding mark_revoked
mark_revoked_idem u k db row h r up = ground arith
