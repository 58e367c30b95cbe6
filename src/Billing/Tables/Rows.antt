-- ===== src/Billing/Tables/Rows.antt =====
-- Lookups in tables that are appended to.
use startprojectformillion.Base.{
  String, Bool, true, false, Option, none, some, List, [], ◌∷◌, ◌++◌, ◌≡◌, refl, arith,
  if◌then◌else◌, str_eq,
}
use startprojectformillion.Billing.Facts.{BillingEventLedgerRecord}
use startprojectformillion.Billing.Tables.{ApplyRow, select_fact, select_apply}

-- The first row that fits.
abbrev pub first_of : {A : Type 0} → Option A → Option A → Option A
first_of none later = later
first_of (some a) later = some a

pub select_fact-append :
    (fits : BillingEventLedgerRecord → Bool) (facts : List BillingEventLedgerRecord)
    (fact : BillingEventLedgerRecord)
    → select_fact fits (facts ++ fact ∷ [])
      ≡ first_of (select_fact fits facts) (if fits fact then some fact else none)
unfolding select_fact
select_fact-append fits [] fact = refl
select_fact-append fits (f ∷ facts) fact = ground (arith, select_fact-append fits facts fact)

-- A row that was found fits.
pub select_fact-fits :
    (fits : BillingEventLedgerRecord → Bool) (facts : List BillingEventLedgerRecord)
    (fact : BillingEventLedgerRecord)
    → select_fact fits facts ≡ some fact
    → fits fact ≡ true
unfolding select_fact
select_fact-fits fits [] fact h = ground arith
select_fact-fits fits (f ∷ facts) fact h = ground (arith, select_fact-fits fits facts fact)

pub select_apply-append :
    (ref : String) (rows : List ApplyRow) (row : ApplyRow)
    → select_apply ref (rows ++ row ∷ [])
      ≡ first_of
          (select_apply ref rows)
          (if str_eq row.internal_fact_ref ref then some row else none)
unfolding select_apply
select_apply-append ref [] row = refl
select_apply-append ref (r ∷ rows) row = ground (arith, select_apply-append ref rows row)

-- Where no row fits one test, a row that was found by another does not fit it.
pub select_fact-misses :
    (fits other : BillingEventLedgerRecord → Bool) (facts : List BillingEventLedgerRecord)
    (fact : BillingEventLedgerRecord)
    → select_fact fits facts ≡ some fact
    → select_fact other facts ≡ none
    → other fact ≡ false
unfolding select_fact
select_fact-misses fits other [] fact found missing = ground (arith, found)
select_fact-misses fits other (f ∷ facts) fact found missing =
    ground (arith, found, missing, select_fact-misses fits other facts fact)
