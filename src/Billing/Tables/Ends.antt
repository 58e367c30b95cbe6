-- ===== src/Billing/Tables/Ends.antt =====
-- How a transaction ends: with the tables that it found, or with what its body leaves.
use startprojectformillion.Base.{◌≡◌, arith, [], ◌⊎◌, inl, inr}
use startprojectformillion.Shared.{Result, ok, err, Result-cases}
use startprojectformillion.Billing.Tables.{Tables, BillingDb, transaction}

-- What the body leaves where nothing fails: an exception rolls it back.
unfoldable pub settled : {A : Type 0} → (Tables → Result A × Tables) → Tables → Tables
settled body t = elim (body t).0 [ ok a ↦ (body t).1 | err e ↦ t ]

pub transaction_clean :
    {A : Type 0} (body : Tables → Result A × Tables) (t : Tables)
    → (transaction body (record { tables = t; faults = [] })).1
      ≡ record { tables = settled body t; faults = [] }
unfolding transaction settled
transaction_clean body t = elim (Result-cases (body t).0) [
  | inl (e, lost) ↦ ground (arith, lost)
  | inr (a, won) ↦ ground (arith, won)
]

pub transaction_ends :
    {A : Type 0} (body : Tables → Result A × Tables) (db : BillingDb)
    → ((transaction body db).1.tables ≡ db.tables)
      ⊎ ((transaction body db).1.tables ≡ settled body db.tables)
unfolding transaction settled
transaction_ends body db = elim (Result-cases (body db.tables).0) [
  | inl (e, lost) ↦ ground (arith, lost)
  | inr (a, won) ↦ ground (arith, won)
]

-- A transaction that returns has committed, and returns what its body does.
pub transaction_ok :
    {A : Type 0} (body : Tables → Result A × Tables) (db : BillingDb) (a : A)
    → (transaction body db).0 ≡ ok a
    → ((body db.tables).0 ≡ ok a) × ((transaction body db).1.tables ≡ (body db.tables).1)
unfolding transaction
transaction_ok body db a done = ground arith

pub transaction_up :
    {A : Type 0} (body : Tables → Result A × Tables) (db : BillingDb) (a : A)
    → db.faults ≡ []
    → (body db.tables).0 ≡ ok a
    → let (r, db') = transaction body db in
      (r ≡ ok a) × (db'.tables ≡ (body db.tables).1) × (db'.faults ≡ [])
unfolding transaction
transaction_up body db a up done = ground (arith, up, done)
