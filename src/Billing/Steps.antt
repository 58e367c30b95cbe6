-- ===== src/Billing/Steps.antt =====
-- Calls of the billing components one after another, over a database whose connection may fail at
-- any of them.
pub mod Justified
pub mod Kept
pub mod Replay
use startprojectformillion.Base.{ℕ, String, Bool, List, [], ◌∷◌}
use startprojectformillion.Handlers.Ports.{SubscriptionSnapshot}
use startprojectformillion.Billing.Tables.{BillingDb, upsert_state, create_if_absent}
use startprojectformillion.Billing.Ingest.{
  NormalizedBillingFactInput, ingest_normalized_billing_fact,
}
use startprojectformillion.Billing.Apply.{apply_by_internal_fact_ref}

pub data Step : Type 0 where
  create : ℕ → Step
  ingest : String → NormalizedBillingFactInput → Step
  apply : String → Step
  upsert : SubscriptionSnapshot → Step

module _ (unicode_word : ℕ → Bool) where
  unfoldable pub step : Step → BillingDb → BillingDb
  unfolding create_if_absent ingest_normalized_billing_fact apply_by_internal_fact_ref upsert_state
  step (Step.create telegram_user_id) db = (create_if_absent telegram_user_id db).1
  step (Step.ingest generated input) db =
      (ingest_normalized_billing_fact unicode_word generated input db).1
  step (Step.apply ref) db = (apply_by_internal_fact_ref unicode_word ref db).1
  step (Step.upsert snapshot) db = (upsert_state snapshot db).1

  unfoldable pub run : List Step → BillingDb → BillingDb
  unfolding step
  run [] db = db
  run (s ∷ steps) db = run steps (step s db)
