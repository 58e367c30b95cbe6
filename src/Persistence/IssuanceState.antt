-- ===== src/Persistence/IssuanceState.antt =====
-- The table `issuance_state` (backend/migrations) and `PostgresIssuanceStateRepository`
-- (backend/src/app/persistence/postgres_issuance_state.py). The server is not part of the
-- repository: each statement is modelled by what its SQL says of the rows, times are numbers, and
-- the faults of the connection are an explicit sequence, one for each call.
pub mod Rows
pub mod Contract
use Prim.Native.Char.{code}
use startprojectformillion.Base.{
  ℕ, ◌-◌, ◌+◌, String, Bool, true, false, ◌&&◌, ◌||◌, Option, none, some, List, [], ◌∷◌, ◌++◌, leb,
  nat_beq, if◌then◌else◌, str_eq,
}
use startprojectformillion.Shared.{
  Exec, Result, ok, err, persistence_dependency_error, value_error, InternalErrorCategory,
}
use startprojectformillion.Issuance.Contracts.{IssuanceStatePersistence, IssuanceStateRow}

-- How a call of the database ends. A reply may be lost after the statement has been committed.
pub data Fault : Type 0 where
  up refused reply_lost : Fault

pub record Db : Type 0 where
  pub rows : List IssuanceStateRow
  pub now : ℕ
  -- what the next calls meet; past the end every call goes through
  pub faults : List Fault

-- The code points of a text.
abbrev codes : String → List ℕ
codes String.[] = []
codes (String.◌∷◌ c s) = code c ∷ codes s

-- The characters beyond ASCII whose `str.upper` holds an ASCII letter.
abbrev upper_to_ascii : List (ℕ × List ℕ)
upper_to_ascii =
    (223, 83 ∷ 83 ∷ [])
    ∷ (305, 73 ∷ [])
    ∷ (329, 700 ∷ 78 ∷ [])
    ∷ (383, 83 ∷ [])
    ∷ (496, 74 ∷ 780 ∷ [])
    ∷ (7830, 72 ∷ 817 ∷ [])
    ∷ (7831, 84 ∷ 776 ∷ [])
    ∷ (7832, 87 ∷ 778 ∷ [])
    ∷ (7833, 89 ∷ 778 ∷ [])
    ∷ (7834, 65 ∷ 702 ∷ [])
    ∷ (64256, 70 ∷ 70 ∷ [])
    ∷ (64257, 70 ∷ 73 ∷ [])
    ∷ (64258, 70 ∷ 76 ∷ [])
    ∷ (64259, 70 ∷ 70 ∷ 73 ∷ [])
    ∷ (64260, 70 ∷ 70 ∷ 76 ∷ [])
    ∷ (64261, 83 ∷ 84 ∷ [])
    ∷ (64262, 83 ∷ 84 ∷ [])
    ∷ []

abbrev upper_char : ℕ → List (ℕ × List ℕ) → List ℕ
upper_char c [] = (if leb b'a' c && leb c b'z' then c - 32 else c) ∷ []
upper_char c ((d, u) ∷ rest) = if nat_beq c d then u else upper_char c rest

-- `str.upper`, but that any other character beyond ASCII stays as it is: it becomes no ASCII letter,
-- and the fragments that are searched for are ASCII.
upper : List ℕ → List ℕ
upper [] = []
upper (c ∷ s) = upper_char c upper_to_ascii ++ upper s

has_prefix : List ℕ → List ℕ → Bool
has_prefix [] s = true
has_prefix (c ∷ p) [] = false
has_prefix (c ∷ p) (d ∷ s) = nat_beq c d && has_prefix p s

-- `frag in u`
has_infix : List ℕ → List ℕ → Bool
unfolding has_prefix
has_infix p [] = has_prefix p []
has_infix p (c ∷ s) = has_prefix p (c ∷ s) || has_infix p s

any_infix : List String → List ℕ → Bool
unfolding has_infix upper
any_infix [] u = false
any_infix (p ∷ ps) u = has_infix (upper (codes p)) u || any_infix ps u

abbrev pub forbidden_ref_substrings : List String
forbidden_ref_substrings =
    "PRIVATE KEY" ∷ "BEGIN " ∷ "token=" ∷ "postgres://" ∷ "postgresql://" ∷ "Bearer " ∷ "vpn://"
    ∷ []

-- `_assert_non_secret_provider_ref` raises exactly on these.
unfoldable pub is_secret_ref : String → Bool
unfolding any_infix upper
is_secret_ref value = any_infix forbidden_ref_substrings (upper (codes value))

abbrev pub has_keys : String → String → IssuanceStateRow → Bool
has_keys user key row = str_eq row.internal_user_id user && str_eq row.issue_idempotency_key key

-- `_SELECT_BY_KEYS`; the two columns are the primary key, so at most one row fits.
unfoldable pub select_by_keys : String → String → List IssuanceStateRow → Option IssuanceStateRow
select_by_keys user key [] = none
select_by_keys user key (row ∷ rows) =
    if has_keys user key row then some row else select_by_keys user key rows

abbrev pub new_row : String → String → String → ℕ → IssuanceStateRow
new_row user key ref now = record {
  internal_user_id = user;
  issue_idempotency_key = key;
  state = IssuanceStatePersistence.issued;
  provider_issuance_ref = ref;
  created_at = now;
  updated_at = now;
  revoked_at = none;
}

-- `_INSERT_ISSUE`, with `ON CONFLICT … DO NOTHING RETURNING`
unfoldable pub insert_issue :
    String
    → String
    → String
    → ℕ
    → List IssuanceStateRow
    → Option IssuanceStateRow × List IssuanceStateRow
insert_issue user key ref now rows = elim (select_by_keys user key rows) [
  | some row ↦ (none, rows)
  | none ↦ (some (new_row user key ref now), rows ++ new_row user key ref now ∷ [])
]

-- COALESCE(revoked_at, now)
abbrev coalesce : Option ℕ → ℕ → ℕ
coalesce none now = now
coalesce (some t) now = t

-- The SET clause, on a row that `issuance_state = 'issued'` lets through.
unfoldable pub revoke_row : ℕ → IssuanceStateRow → IssuanceStateRow
revoke_row now row = elim row.state [
  | IssuanceStatePersistence.revoked ↦ row
  | IssuanceStatePersistence.issued ↦ record row {
    state = IssuanceStatePersistence.revoked;
    revoked_at = some (coalesce row.revoked_at now);
    updated_at = now;
  }
]

unfoldable pub update_rows : String → String → ℕ → List IssuanceStateRow → List IssuanceStateRow
unfolding revoke_row
update_rows user key now [] = []
update_rows user key now (row ∷ rows) =
    (if has_keys user key row then revoke_row now row else row) ∷ update_rows user key now rows

-- `_UPDATE_REVOKE … RETURNING`
unfoldable pub update_revoke :
    String → String → ℕ → List IssuanceStateRow → Option IssuanceStateRow × List IssuanceStateRow
unfolding revoke_row
update_revoke user key now rows = elim (select_by_keys user key rows) [
  | none ↦ (none, rows)
  | some row ↦ elim row.state [
    | IssuanceStatePersistence.revoked ↦ (none, rows)
    | IssuanceStatePersistence.issued ↦ (some (revoke_row now row), update_rows user key now rows)
  ]
]

abbrev next_fault : List Fault → Fault
next_fault [] = up
next_fault (f ∷ fs) = f

abbrev rest_faults : List Fault → List Fault
rest_faults [] = []
rest_faults (f ∷ fs) = fs

-- `async with self._pool.acquire()` and the handler of `PostgresError` and `OSError`
unfoldable pub with_connection :
    {A : Type 0} → (List IssuanceStateRow → A × List IssuanceStateRow) → Exec Db A
with_connection statement db =
    let (a, rows') = statement db.rows in
    elim (next_fault db.faults) [
      | up ↦ (ok a, record db { rows = rows'; faults = rest_faults db.faults })
      | refused ↦ (
        err (persistence_dependency_error InternalErrorCategory.persistence_transient),
        record db { faults = rest_faults db.faults },
      )
      | reply_lost ↦ (
        err (persistence_dependency_error InternalErrorCategory.persistence_transient),
        record db { rows = rows'; faults = rest_faults db.faults },
      )
    ]

unfoldable pub fetch_by_issue_keys : String → String → Exec Db (Option IssuanceStateRow)
unfolding with_connection
fetch_by_issue_keys user key = with_connection (λ rows. (select_by_keys user key rows, rows))

-- INSERT, and the SELECT that follows a conflict
unfoldable pub insert_or_select :
    String
    → String
    → String
    → ℕ
    → List IssuanceStateRow
    → Option IssuanceStateRow × List IssuanceStateRow
unfolding insert_issue
insert_or_select user key ref now rows =
    let (ins, rows') = insert_issue user key ref now rows in
    elim ins [ some row ↦ (some row, rows') | none ↦ (select_by_keys user key rows', rows') ]

-- `if cur is None: raise … PERSISTENCE_INVARIANT`
abbrev row_or_raise : Result (Option IssuanceStateRow) → Result IssuanceStateRow
row_or_raise (err e) = err e
row_or_raise (ok none) =
    err (persistence_dependency_error InternalErrorCategory.persistence_invariant)
row_or_raise (ok (some row)) = ok row

unfoldable pub issue_or_get : String → String → String → Exec Db IssuanceStateRow
unfolding insert_or_select with_connection
issue_or_get user key ref db =
    if is_secret_ref ref
    then (err value_error, db)
    else (let (r, db') = with_connection (insert_or_select user key ref db.now) db in
        (row_or_raise r, db'))

-- UPDATE, and the SELECT that follows where no row was updated
unfoldable pub update_or_select :
    String → String → ℕ → List IssuanceStateRow → Option IssuanceStateRow × List IssuanceStateRow
unfolding update_revoke
update_or_select user key now rows =
    let (upd, rows') = update_revoke user key now rows in
    elim upd [ some row ↦ (some row, rows') | none ↦ (select_by_keys user key rows', rows') ]

unfoldable pub mark_revoked : String → String → Exec Db (Option IssuanceStateRow)
unfolding update_or_select with_connection
mark_revoked user key db = with_connection (update_or_select user key db.now) db
