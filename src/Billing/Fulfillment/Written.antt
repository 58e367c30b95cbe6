-- ===== src/Billing/Fulfillment/Written.antt =====
-- What the calls of the ingress leave when they return.
use startprojectformillion.Base.{
  ℕ, String, Bool, true, some, ◌≡◌, inl, inr, sym, ap, ◌∙◌, arith, string_eq, ==-refl, Bool-cases,
}
use startprojectformillion.Shared.{Exec, Result, ok, Result-cases}
use startprojectformillion.Handlers.Ports.{SubscriptionSnapshot}
use startprojectformillion.Billing.Facts.{Moment}
use startprojectformillion.Billing.Tables.{
  BillingDb, create_if_absent, upsert_state, upsert_state_in_connection, transaction,
}
use startprojectformillion.Billing.Ingest.{ingest_normalized_billing_fact}
use startprojectformillion.Billing.Apply.{Uc05PostgresApplyResult, apply_by_internal_fact_ref}
use startprojectformillion.Billing.Fulfillment.{
  fulfill, answer, apply_paid, apply_stored, ingest_paid,
}
use startprojectformillion.Billing.Fulfillment.Parts.{
  Call, Outside, Ingress, accepted, and_then, activate, ingest_input, was_applied, snapshot_until,
}
use startprojectformillion.Billing.Fulfillment.Payload.{FulfillmentEventPayload}
use startprojectformillion.Billing.Fulfillment.Identity.{FulfillmentIngressSettings}

-- What holds whenever the second call returns `b` holds when both return it.
and_then_ends :
    {A B : Type 0} (first : Exec BillingDb A) (next : A → Exec BillingDb B) (b : B)
    (P : BillingDb → Type 0)
    → ((a : A) (db : BillingDb) → (next a db).0 ≡ ok b → P (next a db).1)
    → (db : BillingDb) → (and_then first next db).0 ≡ ok b
    → P (and_then first next db).1
and_then_ends {B = B} first next b P holds db done = elim (Result-cases (first db).0) [
  | inl (e, lost) ↦ let never : ⊥ = ground (arith, done, lost) in elim never [ ]
  | inr (a, won) ↦
      let same : and_then first next db ≡ next a (first db).1 = ground (arith, won) in
      rw same (holds a (first db).1 (ap (λ (r : Result B × BillingDb). r.0) (sym same) ∙ done))
]

-- An upsert that returned is read back.
upsert-found :
    (snapshot : SubscriptionSnapshot) (db : BillingDb)
    → (upsert_state snapshot db).0 ≡ ok tt
    → (upsert_state snapshot db).1.tables.snapshots snapshot.internal_user_id ≡ some snapshot
unfolding upsert_state upsert_state_in_connection transaction
upsert-found snapshot db done = ground (arith, done, ==-refl snapshot.internal_user_id)

activate-found :
    (user : String) (until : Moment) (found result : Uc05PostgresApplyResult) (db : BillingDb)
    → (activate user until found db).0 ≡ ok result
    → was_applied result ≡ true
    → (activate user until found db).1.tables.snapshots user ≡ some (snapshot_until user until)
activate-found user until found result db done applied =
    elim (Result-cases (upsert_state (snapshot_until user until) db).0) [
      | inl (e, lost) ↦ ground (arith, done, applied, lost)
      | inr (t, won) ↦
          ground (arith, done, applied, won, upsert-found (snapshot_until user until) db)
    ]

module _ (outside : Outside) (settings : FulfillmentIngressSettings) (has_notifier : Bool) where
  pub apply_paid-found :
      (payload : FulfillmentEventPayload) (uid : ℕ) (user : String) (until : Moment) (call : Call)
      (db : BillingDb) (result : Uc05PostgresApplyResult)
      → (apply_paid outside settings has_notifier payload uid user until call db).0 ≡ ok result
      → was_applied result ≡ true
      → (apply_paid outside settings has_notifier payload uid user until call db).1.tables.snapshots
          user
        ≡ some (snapshot_until user until)
  unfolding apply_paid
  apply_paid-found payload uid user until call db result done applied =
      let Found : BillingDb → Type 0 =
        λ d. d.tables.snapshots user ≡ some (snapshot_until user until) in
      and_then_ends (create_if_absent uid)
        (ingest_paid outside settings has_notifier payload user until call) result Found
        (λ identity.
          and_then_ends
            (ingest_normalized_billing_fact outside.unicode_word call.generated
              (ingest_input settings payload user call))
            (apply_stored outside settings has_notifier user until) result Found
            (λ ingested.
              and_then_ends
                (apply_by_internal_fact_ref outside.unicode_word ingested.stored.internal_fact_ref)
                (activate user until) result Found
                (λ found d h. activate-found user until found result d h applied)))
        db done

  pub fulfill-found :
      (payload : FulfillmentEventPayload) (uid : ℕ) (user : String) (until : Moment) (call : Call)
      (s : Ingress)
      → (fulfill outside settings has_notifier payload uid user until call s).0 ≡ ok accepted
      → (fulfill outside settings has_notifier payload uid user until call s).1.db.tables.snapshots
          user
        ≡ some (snapshot_until user until)
  unfolding fulfill answer
  fulfill-found payload uid user until call s done =
      let calls = apply_paid outside settings has_notifier payload uid user until call in
      elim (Result-cases (calls s.db).0) [
        | inl (e, lost) ↦ ground (arith, done, lost)
        | inr (result, won) ↦ elim (Bool-cases (was_applied result)) [
          | inl applied ↦ ground (
            arith,
            done,
            won,
            applied,
            apply_paid-found payload uid user until call s.db result won applied,
          )
          | inr refused ↦ ground (arith, done, won, refused)
        ]
      ]
