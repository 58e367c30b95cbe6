-- ===== src/Tests/Persistence.antt =====
-- The repository of issuance states at concrete rows and faults.
use startprojectformillion.Base.{some, [], ◌∷◌, ◌≡◌, ◌⊎◌, refl}
use startprojectformillion.Shared.{ok}
use startprojectformillion.Issuance.Contracts.{IssuanceStatePersistence, IssuanceStateRow}
use startprojectformillion.Persistence.IssuanceState.{
  Db, Fault, select_by_keys, new_row, revoke_row, issue_or_get, mark_revoked,
}
use startprojectformillion.Persistence.IssuanceState.Contract.{
  IsReply, issue_or_get_keeps, mark_revoked_moves, mark_revoked-IsReply, mark_revoked_idem,
}

abbrev row : IssuanceStateRow
row = new_row "u7" "issue-1" "ref-1" 100

abbrev revoked : IssuanceStateRow
revoked = record row { state = IssuanceStatePersistence.revoked; revoked_at = some 120 }

abbrev empty_db : Db
empty_db = record { rows = []; now = 100; faults = [] }

-- A database that loses the reply of its next call.
abbrev one_row : Db
one_row = record { rows = row ∷ []; now = 120; faults = Fault.reply_lost ∷ [] }

abbrev one_revoked : Db
one_revoked = record { rows = revoked ∷ []; now = 150; faults = [] }

abbrev healthy : Db
healthy = record { rows = row ∷ []; now = 120; faults = [] }

found_in_one : select_by_keys "u7" "issue-1" one_row.rows ≡ some row
unfolding select_by_keys
found_in_one = refl

found_revoked : select_by_keys "u7" "issue-1" one_revoked.rows ≡ some revoked
unfolding select_by_keys
found_revoked = refl

abbrev revoked_now : IssuanceStateRow
revoked_now = revoke_row 120 row

revoked_reply : (mark_revoked "u7" "issue-1" healthy).0 ≡ ok (some revoked_now)
unfolding mark_revoked select_by_keys revoke_row
revoked_reply = refl

issue_or_get_keeps_run :
    select_by_keys "u7" "issue-1" (issue_or_get "u7" "issue-2" "ref-2" one_row).1.rows ≡ some row
issue_or_get_keeps_run =
    issue_or_get_keeps "u7" "issue-2" "ref-2" "u7" "issue-1" one_row row found_in_one

mark_revoked_moves_run :
    let after = select_by_keys "u7" "issue-1" (mark_revoked "u7" "issue-1" one_row).1.rows in
    (after ≡ some row)
    ⊎ (row.state ≡ IssuanceStatePersistence.issued) × (after ≡ some (revoke_row 120 row))
mark_revoked_moves_run = mark_revoked_moves "u7" "issue-1" "u7" "issue-1" one_row row found_in_one

mark_revoked-IsReply_run :
    IsReply
      (some revoked_now)
      (select_by_keys "u7" "issue-1" healthy.rows)
      (select_by_keys "u7" "issue-1" (mark_revoked "u7" "issue-1" healthy).1.rows)
mark_revoked-IsReply_run =
    mark_revoked-IsReply "u7" "issue-1" healthy (some revoked_now) revoked_reply

mark_revoked_idem_run : mark_revoked "u7" "issue-1" one_revoked ≡ (ok (some revoked), one_revoked)
mark_revoked_idem_run = mark_revoked_idem "u7" "issue-1" one_revoked revoked found_revoked refl refl
