-- ===== src/Billing/Steps/Justified.antt =====
-- Every row of the apply records is the decision on a fact of the ledger.
use startprojectformillion.Base.{
  ℕ, String, Bool, true, false, Option, none, some, List, ◌≡◌, refl, sym, ap, ◌∙◌, arith, inl, inr,
  if◌then◌else◌, str_eq, eq_iff, Option-cases, ◌⊎◌,
}
use startprojectformillion.Persistence.IssuanceState.{Fault}
use startprojectformillion.Billing.Facts.{
  BillingEventLedgerRecord, BillingEventLedgerStatus, BillingSubscriptionApplyOutcome,
  first_time_decision, is_allowlisted,
}
use startprojectformillion.Billing.Tables.{
  no_rows, Tables, BillingDb, ApplyRow, select_fact, select_apply, has_ref, row_to_record,
}
use startprojectformillion.Billing.Tables.Ends.{settled}
use startprojectformillion.Billing.Tables.Rows.{
  select_fact-append, select_apply-append, first_of, select_fact-fits,
}
use startprojectformillion.Billing.Ingest.{ingest_in_transaction}
use startprojectformillion.Billing.Apply.{apply_in_transaction, apply_row_of, persist_apply}
use startprojectformillion.Billing.Apply.Once.{persist-tables, decision_ref}
use startprojectformillion.Billing.Steps.{Step, run}
use startprojectformillion.Billing.Steps.Kept.{run_keeps, ingest-ledger}

-- What the apply records say of a reference, against what the ledger says of it.
unfoldable pub IsJustified : Option BillingEventLedgerRecord → Option ApplyRow → Type 0
IsJustified fact none = Unit
IsJustified none (some row) = ⊥
IsJustified (some fact) (some row) = row ≡ apply_row_of (first_time_decision fact)

-- At one reference.
abbrev JustifiedAt : String → List BillingEventLedgerRecord → List ApplyRow → Type 0
JustifiedAt ref ledger rows = IsJustified (select_fact (has_ref ref) ledger) (select_apply ref rows)

IsJustified-more :
    (found : Option BillingEventLedgerRecord) (row : Option ApplyRow)
    (later : Option BillingEventLedgerRecord)
    → IsJustified found row
    → IsJustified (first_of found later) row
unfolding IsJustified
IsJustified-more found none later p = tt
IsJustified-more none (some row) later p = elim p [ ]
IsJustified-more (some fact) (some row) later p = p

apply_same :
    (ref : String) (t : Tables)
    → (select_fact (has_ref ref) t.ledger ≡ none)
      ⊎ ((row : ApplyRow) × (select_apply ref t.apply_records ≡ some row))
    → (apply_in_transaction ref t).1 ≡ t
unfolding apply_in_transaction
apply_same ref t (inl absent) = rw (absent, apply_in_transaction)
apply_same ref t (inr (row, old)) = elim (Option-cases (select_fact (has_ref ref) t.ledger)) [
  | inl absent ↦ rw (absent, apply_in_transaction)
  | inr (fact, found) ↦ rw (found, old, apply_in_transaction)
]

apply_new :
    (ref : String) (t : Tables) (fact : BillingEventLedgerRecord)
    → select_fact (has_ref ref) t.ledger ≡ some fact
    → select_apply ref t.apply_records ≡ none
    → (apply_in_transaction ref t).1 ≡ persist_apply (first_time_decision fact) t
unfolding apply_in_transaction
apply_new ref t fact found new = rw (found, new, apply_in_transaction)

-- One more row, for the fact that the ledger has of its reference.
IsJustified-row :
    (found : Option BillingEventLedgerRecord) (old : Option ApplyRow)
    (fact : BillingEventLedgerRecord) (hit : Bool)
    → (hit ≡ true → found ≡ some fact)
    → IsJustified found old
    → IsJustified found
        (first_of old (if hit then some (apply_row_of (first_time_decision fact)) else none))
unfolding IsJustified
IsJustified-row found (some row) fact hit here p = p
IsJustified-row found none fact false here p = tt
IsJustified-row found none fact true here p = rw (here refl) refl

-- The reference of a decision is the one by which its fact was found.
found_by :
    (ref asked : String) (facts : List BillingEventLedgerRecord) (fact : BillingEventLedgerRecord)
    → select_fact (has_ref ref) facts ≡ some fact
    → str_eq (first_time_decision fact).internal_fact_ref asked ≡ true
    → select_fact (has_ref asked) facts ≡ some fact
found_by ref asked facts fact found hit =
    let same : ref ≡ asked = ground (
      arith,
      hit,
      decision_ref fact,
      select_fact-fits (has_ref ref) facts fact found,
      eq_iff fact.internal_fact_ref ref,
      eq_iff fact.internal_fact_ref asked,
      eq_iff (first_time_decision fact).internal_fact_ref asked,
    ) in
    rw (sym same) found

apply-justified :
    (ref asked : String) (t : Tables)
    → JustifiedAt asked t.ledger t.apply_records
    → let t' = (apply_in_transaction ref t).1 in JustifiedAt asked t'.ledger t'.apply_records
apply-justified ref asked t p = elim (Option-cases (select_fact (has_ref ref) t.ledger)) [
  | inl absent ↦ rw (apply_same ref t (inl absent)) p
  | inr (fact, found) ↦ elim (Option-cases (select_apply ref t.apply_records)) [
    | inr (row, old) ↦ rw (apply_same ref t (inr (row, old))) p
    | inl new ↦
        let ins = first_time_decision fact in
        rw
          (
            apply_new ref t fact found new,
            (persist-tables ins t).0,
            (persist-tables ins t).1,
            select_apply-append asked t.apply_records (apply_row_of ins),
          )
          (IsJustified-row (select_fact (has_ref asked) t.ledger)
            (select_apply asked t.apply_records) fact (str_eq ins.internal_fact_ref asked)
            (found_by ref asked t.ledger fact found) p)
  ]
]

ingest-justified :
    (unicode_word : ℕ → Bool) (asked : String) (fact : BillingEventLedgerRecord) (t : Tables)
    → JustifiedAt asked t.ledger t.apply_records
    → let t' = settled (ingest_in_transaction unicode_word fact) t in
      JustifiedAt asked t'.ledger t'.apply_records
ingest-justified unicode_word asked fact t p =
    let (rows, ends) = ingest-ledger unicode_word fact t in
    elim ends [
      | inl same ↦ rw (rows, same) p
      | inr more ↦
          rw (rows, more, select_fact-append (has_ref asked) t.ledger (row_to_record fact))
            (IsJustified-more (select_fact (has_ref asked) t.ledger)
              (select_apply asked t.apply_records) _ p)
    ]

pub run-IsJustified :
    (unicode_word : ℕ → Bool) (steps : List Step) (db : BillingDb) (ref : String)
    → IsJustified
        (select_fact (has_ref ref) db.tables.ledger)
        (select_apply ref db.tables.apply_records)
    → let t' = (run unicode_word steps db).tables in
      IsJustified (select_fact (has_ref ref) t'.ledger) (select_apply ref t'.apply_records)
run-IsJustified unicode_word steps db ref p =
    run_keeps unicode_word (JustifiedAt ref) (ingest-justified unicode_word ref)
      (λ asked t. apply-justified asked ref t) steps db p

nothing-IsJustified :
    (ref : String)
    → IsJustified
        (select_fact (has_ref ref) no_rows.ledger)
        (select_apply ref no_rows.apply_records)
unfolding IsJustified select_fact select_apply
nothing-IsJustified ref = tt

-- The fact was paid for by the user: accepted, of an allow-listed type, with that user.
abbrev pub IsPaidBy : String → BillingEventLedgerRecord → Type 0
IsPaidBy user fact =
    (fact.status ≡ BillingEventLedgerStatus.accepted)
    × (fact.internal_user_id ≡ some user)
    × (is_allowlisted fact.event_type ≡ true)

decision_paid :
    (fact : BillingEventLedgerRecord) (user : String)
    → (first_time_decision fact).apply_outcome ≡ BillingSubscriptionApplyOutcome.active_applied
    → (first_time_decision fact).record_internal_user_id ≡ user
    → IsPaidBy user fact
unfolding first_time_decision
decision_paid fact user active for = ground arith

justified_paid :
    (found : Option BillingEventLedgerRecord) (row : ApplyRow)
    → IsJustified found (some row)
    → row.apply_outcome ≡ BillingSubscriptionApplyOutcome.active_applied
    → (fact : BillingEventLedgerRecord) × ((found ≡ some fact) × IsPaidBy row.internal_user_id fact)
unfolding IsJustified
justified_paid none row p active = elim p [ ]
justified_paid (some fact) row p active = (
  fact,
  (
    refl,
    decision_paid fact row.internal_user_id
        (sym (ap (λ (r : ApplyRow). r.apply_outcome) p) ∙ active)
        (sym (ap (λ (r : ApplyRow). r.internal_user_id) p)),
  ),
)

-- Start with empty tables and make any calls of the four billing operations, in any order and against
-- any sequence of connection faults. Then an activation in the apply records always has a fact of its
-- reference in the ledger which was accepted, is of an allow-listed type, and names the activated user.
pub active_is_paid :
    (unicode_word : ℕ → Bool) (steps : List Step) (faults : List Fault) (ref : String)
    (row : ApplyRow)
    → let t' = (run unicode_word steps (record { tables = no_rows; faults = faults })).tables in
      select_apply ref t'.apply_records ≡ some row
      → row.apply_outcome ≡ BillingSubscriptionApplyOutcome.active_applied
      → (fact : BillingEventLedgerRecord) × ((select_fact (has_ref ref) t'.ledger ≡ some fact)
          × IsPaidBy row.internal_user_id fact)
active_is_paid unicode_word steps faults ref row found active =
    let db : BillingDb = record { tables = no_rows; faults = faults } in
    let t' : Tables = (run unicode_word steps db).tables in
    justified_paid (select_fact (has_ref ref) t'.ledger) row
      (rw (sym found) (run-IsJustified unicode_word steps db ref (nothing-IsJustified ref))) active
