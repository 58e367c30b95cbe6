-- ===== src/Billing/Fulfillment/Parts.antt =====
-- What the handler of backend/src/app/runtime/payment_fulfillment_ingress.py is made of: a request, the
-- libraries, the answers, and the small steps on the way.
use startprojectformillion.Base.{
  ℕ, ◌+◌, ◌*◌, String, Bool, true, false, ◌&&◌, not, Option, none, some, List, [], ◌∷◌, ◌++◌, ltb,
  if◌then◌else◌,
}
use startprojectformillion.Shared.{Exec, Result, ok, err, other_exception, OperationOutcomeCategory}
use startprojectformillion.Handlers.Ports.{SubscriptionSnapshot}
use startprojectformillion.Shared.Json.{Json}
use startprojectformillion.Billing.Facts.{
  Moment, aware, BillingEventLedgerStatus, BillingSubscriptionApplyOutcome,
}
use startprojectformillion.Billing.Tables.{BillingDb, upsert_state}
use startprojectformillion.Billing.Ingest.{NormalizedBillingFactInput}
use startprojectformillion.Billing.Apply.{Uc05PostgresApplyResult}
use startprojectformillion.Billing.Reference.{Library, second}
use startprojectformillion.Billing.Fulfillment.Payload.{Digit, FulfillmentEventPayload}
use startprojectformillion.Billing.Fulfillment.Identity.{FulfillmentIngressSettings}

pub record Request : Type 0 where
  pub timestamp_header : String
  pub signature_header : String
  pub body : List ℕ

-- What one call reads of the clock and of `uuid4`.
pub record Call : Type 0 where
  pub now_epoch : ℕ
  pub now_utc : ℕ
  pub received_at : Moment
  pub correlation_id : String
  pub generated : String

-- The libraries that the handler uses besides those of the references.
pub record Outside : Type 0 where
  pub lib : Library
  -- `_signature_hex_for`: the HMAC of the time, a full stop and the body
  pub signature_hex_for : String → String → List ℕ → String
  -- `json.loads(raw_body.decode("utf-8"))`: `value_error` where the body is not UTF-8 or not JSON
  pub loads_body : List ℕ → Result Json
  pub unicode_digit : ℕ → Digit
  pub unicode_word : ℕ → Bool

pub data JsonResponse : Type 0 where
  json_error : ℕ → String → JsonResponse
  accepted : JsonResponse

pub record Notice : Type 0 where
  pub telegram_user_id : ℕ
  pub active_until : Moment
  pub correlation_id : String

pub record Ingress : Type 0 where
  pub db : BillingDb
  pub emitted : List (String × String)
  pub notices : List Notice

-- `datetime.max`, in microseconds from the start of the year 1
abbrev pub end_of_time : ℕ
end_of_time = 315537897600 * second

abbrev pub day : ℕ
day = 86400 * second

-- `paid_at + timedelta(days=period_days)`; an OverflowError past the year 9999.
unfoldable pub active_until_of : Moment → ℕ → Result Moment
active_until_of paid period_days =
    if ltb (paid.wall + period_days * day) end_of_time
    then ok (record { wall = paid.wall + period_days * day; utc = paid.utc + period_days * day })
    else err other_exception

abbrev pub period_of : Option ℕ → Option ℕ → Option ℕ
period_of (some (ℕ.suc n)) default = some (ℕ.suc n)
period_of _ default = default

abbrev pub ingest_input :
    FulfillmentIngressSettings
    → FulfillmentEventPayload
    → String
    → Call
    → NormalizedBillingFactInput
ingest_input settings payload internal_user_id call = record {
  billing_provider_key = settings.provider_key;
  external_event_id = payload.external_event_id;
  event_type = "subscription_activated";
  event_effective_at = aware payload.paid_at;
  event_received_at = aware call.received_at;
  status = BillingEventLedgerStatus.accepted;
  ingestion_correlation_id = call.correlation_id;
  internal_user_id = some internal_user_id;
  checkout_attempt_id = some payload.external_payment_id;
  amount_currency = none;
  internal_fact_ref = none;
}

-- `operation_outcome in (SUCCESS, IDEMPOTENT_NOOP)`
abbrev pub was_applied : Uc05PostgresApplyResult → Bool
was_applied result = elim result.operation_outcome [
  | OperationOutcomeCategory.success ↦ true
  | OperationOutcomeCategory.idempotent_noop ↦ true
  | _ ↦ false
]

-- A call after one that returned.
abbrev pub and_then : {A B : Type 0} → Exec BillingDb A → (A → Exec BillingDb B) → Exec BillingDb B
and_then first next db =
    let (r, db') = first db in elim r [ err e ↦ (err e, db') | ok a ↦ next a db' ]

abbrev pub snapshot_until : String → Moment → SubscriptionSnapshot
snapshot_until internal_user_id until = record {
  internal_user_id = internal_user_id;
  state_label = "active";
  active_until_utc = some until.utc;
}

-- `telemetry.emit`
abbrev pub emit : String → String → Ingress → Ingress
emit decision reason s = record s { emitted = s.emitted ++ (decision, reason) ∷ [] }

-- A refusal: its reason is emitted before it is answered.
abbrev pub refuse : ℕ → String → String → Exec Ingress JsonResponse
refuse status code reason s = (ok (json_error status code), emit "rejected" reason s)

-- Whether the answer of UC-05 is a first activation.
abbrev pub is_first_activation : Uc05PostgresApplyResult → Bool
is_first_activation result = elim result.operation_outcome [
  | OperationOutcomeCategory.success ↦ elim result.apply_outcome [
    | some BillingSubscriptionApplyOutcome.active_applied ↦ not result.idempotent_replay
    | _ ↦ false
  ]
  | _ ↦ false
]

abbrev pub notify : Bool → Uc05PostgresApplyResult → Notice → Ingress → Ingress
notify has_notifier result notice s =
    if has_notifier && is_first_activation result
    then record s { notices = s.notices ++ notice ∷ [] }
    else s

-- After UC-05: the snapshot is written where a decision is recorded.
abbrev pub activate :
    String → Moment → Uc05PostgresApplyResult → Exec BillingDb Uc05PostgresApplyResult
activate internal_user_id until result db =
    if was_applied result
    then and_then (upsert_state (snapshot_until internal_user_id until))
        (λ written db'. (ok result, db')) db
    else (ok result, db)
