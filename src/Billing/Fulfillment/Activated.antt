-- ===== src/Billing/Fulfillment/Activated.antt =====
-- What has been written when the ingress answers that an event was accepted.
use startprojectformillion.Base.{ℕ, ◌+◌, ◌*◌, String, Bool, Option, some, List, ◌≡◌, ◌⊎◌, string_eq}
use startprojectformillion.Shared.{ok}
use startprojectformillion.Shared.Json.{Json}
use startprojectformillion.Billing.Facts.{Moment, BillingEventLedgerRecord}
use startprojectformillion.Billing.Tables.{BillingDb}
use startprojectformillion.Billing.Ingest.{build_ledger_record_for_ingest}
use startprojectformillion.Billing.Fulfillment.{handle_signed, fulfill_for}
use startprojectformillion.Billing.Fulfillment.Parts.{
  Call, Outside, Ingress, ingest_input, snapshot_until, period_of, day,
}
use startprojectformillion.Billing.Fulfillment.Payload.{
  FulfillmentEventPayload, parse_event_payload,
}
use startprojectformillion.Billing.Fulfillment.Identity.{
  FulfillmentIngressSettings, resolve_identity_from_payload,
}
use startprojectformillion.Billing.Fulfillment.Booked.{IsNewIn, IsReplayIn}

-- The subscription of a user, active until the days of the period after the payment.
abbrev pub IsActivated : Option ℕ → FulfillmentEventPayload → String → BillingDb → Type 0
IsActivated period payload user db =
    (days : ℕ) × ((until : Moment) × ((period ≡ some days)
        × (until.utc ≡ payload.paid_at.utc + days * day)
        × (db.tables.snapshots user ≡ some (snapshot_until user until))))

-- The event of an accepted call: a new one has a new row in the ledger, and the subscription of its
-- user is active; of one that the ledger held, the ledger stays what it was.
abbrev pub IsSettled :
    Outside
    → FulfillmentIngressSettings
    → Option ℕ
    → FulfillmentEventPayload
    → String
    → Call
    → BillingDb
    → BillingDb
    → Type 0
IsSettled outside settings period payload user call before after =
    (fact : BillingEventLedgerRecord) × ((build_ledger_record_for_ingest outside.unicode_word
          call.generated (ingest_input settings payload user call)
        ≡ ok fact)
      × ((IsNewIn fact before.tables.ledger after.tables.ledger
            × IsActivated period payload user after)
          ⊎ IsReplayIn fact before.tables.ledger after.tables.ledger))

module _ (outside : Outside) (settings : FulfillmentIngressSettings) (has_notifier : Bool) where
  pub handle_signed-read :
      (body : List ℕ) (call : Call) (s : Ingress) (json : Json) (payload : FulfillmentEventPayload)
      (uid : ℕ) (user : String)
      → outside.loads_body body ≡ ok json
      → parse_event_payload outside.unicode_digit outside.lib.fromisoformat json ≡ ok payload
      → resolve_identity_from_payload outside.lib payload settings call.now_utc ≡ ok (uid, user)
      → handle_signed outside settings has_notifier body call s
        ≡ fulfill_for outside settings has_notifier
            (period_of payload.period_days settings.default_subscription_period_days)
            payload
            uid
            user
            call
            s
  unfolding handle_signed
  handle_signed-read body call s json payload uid user loaded read named =
      rw (loaded, read, named, handle_signed)
