-- ===== src/Persistence/IssuanceState/Rows.antt =====
-- The statements of `PostgresIssuanceStateRepository` on the rows.
use startprojectformillion.Base.{
  ℕ, String, Bool, true, ◌&&◌, none, some, List, [], ◌∷◌, ◌++◌, ◌≡◌, inl, inr, refl, arith, str_eq,
  eq_iff, if◌then◌else◌, Bool-cases, map_option,
}
use startprojectformillion.Issuance.Contracts.{IssuanceStateRow}
use startprojectformillion.Persistence.IssuanceState.{
  select_by_keys, has_keys, new_row, revoke_row, update_rows,
}

-- `(u, k)` and `(v, j)` are the same primary key
abbrev pub same_key : String → String → String → String → Bool
same_key u k v j = str_eq u v && str_eq k j

module _ (u k : String) where
  pub select-keys :
      (rows : List IssuanceStateRow) (row : IssuanceStateRow)
      → select_by_keys u k rows ≡ some row
      → has_keys u k row ≡ true
  unfolding select_by_keys
  select-keys [] row h = ground arith
  select-keys (r ∷ rows) row h = ground (arith, select-keys rows row)

  pub select-append :
      (v j : String) (rows : List IssuanceStateRow) (ref : String) (now : ℕ)
      → select_by_keys v j (rows ++ new_row u k ref now ∷ []) ≡ (elim (select_by_keys v j rows) [
        | some row ↦ some row
        | none ↦ if same_key u k v j then some (new_row u k ref now) else none
      ])
  unfolding select_by_keys
  select-append v j [] ref now = ground arith
  select-append v j (r ∷ rows) ref now = ground (arith, select-append v j rows ref now)

-- Revoking a row keeps its primary key.
keys-revoke_row :
    (v j : String) (now : ℕ) (row : IssuanceStateRow)
    → has_keys v j (revoke_row now row) ≡ has_keys v j row
unfolding revoke_row
keys-revoke_row v j now row = ground arith

-- The row that `update_rows` leaves for a row of the table.
abbrev updated : String → String → ℕ → IssuanceStateRow → IssuanceStateRow
updated u k now row = if has_keys u k row then revoke_row now row else row

-- Two tests of one row agree with the test of the keys.
same_key_of_row :
    (u k v j : String) (row : IssuanceStateRow)
    → has_keys v j row ≡ true
    → has_keys u k row ≡ same_key u k v j
same_key_of_row u k v j row h = ground (
  arith,
  eq_iff row.internal_user_id u,
  eq_iff row.issue_idempotency_key k,
  eq_iff row.internal_user_id v,
  eq_iff row.issue_idempotency_key j,
  eq_iff u v,
  eq_iff k j,
)

keys-updated :
    (u k v j : String) (now : ℕ) (row : IssuanceStateRow)
    → has_keys v j (updated u k now row) ≡ has_keys v j row
keys-updated u k v j now row = elim (Bool-cases (has_keys u k row)) [
  | inl yes_key ↦ rw yes_key (keys-revoke_row v j now row)
  | inr no_key ↦ rw no_key
]

module _ (u k : String) where
  pub select-update :
      (v j : String) (now : ℕ) (rows : List IssuanceStateRow)
      → select_by_keys v j (update_rows u k now rows)
        ≡ map_option
            (λ row. if same_key u k v j then revoke_row now row else row)
            (select_by_keys v j rows)
  unfolding select_by_keys update_rows
  select-update v j now [] = refl
  select-update v j now (r ∷ rows) = elim (Bool-cases (has_keys v j r)) [
    | inl found ↦ rw (keys-updated u k v j now r, found, same_key_of_row u k v j r found)
    | inr other ↦ rw (keys-updated u k v j now r, other) (select-update v j now rows)
  ]
