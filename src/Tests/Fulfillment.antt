-- ===== src/Tests/Fulfillment.antt =====
-- One signed event, and what the laws of the ingress say of it.
use startprojectformillion.Base.{
  Option, parse_digits, map_option, str_eq, if◌then◌else◌, String, true, false, none, some, [], ◌∷◌,
  ◌≡◌, ◌⊎◌, refl, arith, map, is_some,
}
use startprojectformillion.Shared.{ok}
use startprojectformillion.Shared.Validation.{ℤ, pos}
use startprojectformillion.Shared.Json.{Json, object, field, nil, int, str}
use startprojectformillion.Billing.Facts.{
  Moment, BillingEventLedgerRecord, BillingEventLedgerStatus,
}
use startprojectformillion.Billing.Tables.{ApplyRow, no_rows, select_fact}
use startprojectformillion.Billing.Ingest.{build_ledger_record_for_ingest, validate_ref}
use startprojectformillion.Persistence.IssuanceState.{Fault}
use startprojectformillion.Billing.Fulfillment.{handler, handle_signed}
use startprojectformillion.Billing.Fulfillment.Parts.{
  Request, Call, Outside, Ingress, json_error, accepted, active_until_of, ingest_input,
}
use startprojectformillion.Billing.Fulfillment.Headers.{
  parse_signature_header, parse_timestamp_header,
}
use startprojectformillion.Billing.Fulfillment.Payload.{
  no_digit, FulfillmentEventPayload, parse_event_payload,
}
use startprojectformillion.Billing.Fulfillment.Identity.{
  FulfillmentIngressSettings, resolve_identity_from_payload,
}
use startprojectformillion.Billing.Fulfillment.Settings.{load_fulfillment_ingress_settings_from_env}
use startprojectformillion.Billing.Fulfillment.Settings.Bounds.{IsSound, loaded-IsSound}
use startprojectformillion.Billing.Fulfillment.Safe.{IsSigned, unauthorized, handler-IsSigned}
use startprojectformillion.Billing.Fulfillment.Answered.{handler-accepts}
use startprojectformillion.Tests.Reference.{library, digest}

abbrev event_json : Json
event_json = object (
    field "schema_version" (int (pos 1)) (
      field "external_event_id" (str "evt-1") (
        field "external_payment_id" (str "pay-1") (
          field "telegram_user_id" (int (pos 42))
            (field "period_days" (str " 30") (field "paid_at" (str "0001-01-01T00:00:05Z") nil))))))

abbrev outside : Outside
outside = record {
  lib = library;
  signature_hex_for = λ secret time body. digest;
  loads_body = λ body. ok event_json;
  unicode_digit = λ c. no_digit;
  unicode_word = λ c. false;
}

abbrev settings : FulfillmentIngressSettings
settings = record {
  secret = "s3cret";
  provider_key = "provider_agnostic_v1";
  max_age_seconds = 300;
  checkout_reference_secret = none;
  checkout_reference_max_age_seconds = pos 604800;
  strict_checkout_reference_required = false;
  default_subscription_period_days = none;
}

abbrev request : Request
request = record {
  timestamp_header = " 100";
  signature_header = "SHA256=96acec6c7b025551ff03f54b02c1efbbf98b0565c53ae7e269ead1ed71437f6d";
  body = 123 ∷ 125 ∷ [];
}

abbrev paid_at : Moment
paid_at = record { wall = 5000000; utc = 5000000 }

abbrev call : Call
call = record {
  now_epoch = 160;
  now_utc = 160000000;
  received_at = paid_at;
  correlation_id = "fulfill-1";
  generated = "ref-1";
}

abbrev ingress : Ingress
ingress = record { db = record { tables = no_rows; faults = [] }; emitted = []; notices = [] }

abbrev payload : FulfillmentEventPayload
payload = record {
  external_event_id = "evt-1";
  external_payment_id = "pay-1";
  telegram_user_id = some 42;
  client_reference_id = none;
  client_reference_proof = none;
  period_days = some 30;
  paid_at = paid_at;
}

abbrev fact : BillingEventLedgerRecord
fact = record {
  internal_fact_ref = "ref-1";
  billing_provider_key = "provider_agnostic_v1";
  external_event_id = "evt-1";
  event_type = "subscription_activated";
  event_effective_at = paid_at;
  event_received_at = paid_at;
  internal_user_id = some "u42";
  checkout_attempt_id = some "pay-1";
  amount_currency = none;
  status = BillingEventLedgerStatus.accepted;
  ingestion_correlation_id = "fulfill-1";
}

signed : IsSigned outside settings request call
unfolding parse_timestamp_header parse_signature_header
signed = (100, (refl, refl, omega arith, omega arith))

event_read :
    parse_event_payload outside.unicode_digit outside.lib.fromisoformat event_json ≡ ok payload
unfolding parse_event_payload
event_read = refl

user_named : resolve_identity_from_payload outside.lib payload settings 160000000 ≡ ok (42, "u42")
unfolding resolve_identity_from_payload
user_named = refl

until_computed :
    active_until_of paid_at 30 ≡ ok (record { wall = 2592005000000; utc = 2592005000000 })
unfolding active_until_of
until_computed = refl

fact_built :
    build_ledger_record_for_ingest outside.unicode_word "ref-1"
      (ingest_input settings payload "u42" call)
    ≡ ok fact
unfolding build_ledger_record_for_ingest
fact_built = refl

ref_valid : validate_ref outside.unicode_word "ref-1" ≡ ok "ref-1"
unfolding validate_ref
ref_valid = refl

handler-IsSigned_example :
    (IsSigned outside settings request call
      × (handler outside settings true request call ingress
          ≡ handle_signed outside settings true request.body call ingress))
    ⊎ (let (r, s') = handler outside settings true request call ingress in
        (r ≡ ok unauthorized) × (s'.db ≡ ingress.db) × (s'.notices ≡ ingress.notices))
handler-IsSigned_example = handler-IsSigned outside settings true request call ingress

handler-accepts_example : (handler outside settings true request call ingress).0 ≡ ok accepted
unfolding select_fact
handler-accepts_example =
    handler-accepts outside settings true request call ingress event_json payload 42 30 "u42"
      "ref-1" (record { wall = 2592005000000; utc = 2592005000000 }) fact signed refl event_read
      user_named refl until_computed fact_built ref_valid refl refl refl

-- The same event again, for another user, and signed.
abbrev other_json : Json
other_json = object (
    field "schema_version" (int (pos 1)) (
      field "external_event_id" (str "evt-1") (
        field "external_payment_id" (str "pay-1") (
          field "telegram_user_id" (int (pos 43))
            (field "period_days" (str "30") (field "paid_at" (str "0001-01-01T00:00:05Z") nil))))))

other_user_activated :
    let s1 = (handler outside settings true request call ingress).1 in
    let t =
      (handler
        (record outside { loads_body = λ body. ok other_json })
        settings
        true
        request
        call
        s1).1.db.tables in
    (is_some (t.snapshots "u43") ≡ true)
    × (map (λ (row : ApplyRow). row.internal_user_id) t.apply_records ≡ "u42" ∷ [])
    × (map (λ (fact : BillingEventLedgerRecord). fact.internal_user_id) t.ledger ≡ some "u42" ∷ [])
unfolding handler
other_user_activated = (refl, refl, refl)

-- The fourth transaction, the write of the snapshot with its end, is refused.
no_end_on_failure :
    let s0 : Ingress = record ingress {
      db = record {
        tables = no_rows;
        faults = Fault.up ∷ Fault.up ∷ Fault.up ∷ Fault.refused ∷ [];
      };
    } in
    let (r, s1) = handler outside settings true request call s0 in
    (r ≡ ok (json_error 503 "temporarily_unavailable"))
    × (s1.db.tables.snapshots "u42"
        ≡ some
            (record { internal_user_id = "u42"; state_label = "active"; active_until_utc = none }))
unfolding handler
no_end_on_failure = (refl, refl)

-- The environment of an ingress with its secret and a default period.
abbrev env : String → Option String
env name =
    if str_eq name "PAYMENT_FULFILLMENT_HTTP_ENABLE"
    then some " Yes"
    else if str_eq name "PAYMENT_FULFILLMENT_WEBHOOK_SECRET"
    then some "s3cret "
    else if str_eq name "SUBSCRIPTION_DEFAULT_PERIOD_DAYS"
    then some "30"
    else none

abbrev int_of_text : String → Option ℤ
int_of_text s = map_option (λ n. pos n) (parse_digits s)

abbrev loaded : FulfillmentIngressSettings
loaded = record settings { default_subscription_period_days = some 30 }

env_loaded :
    load_fulfillment_ingress_settings_from_env outside.unicode_digit library.fromisoformat
      int_of_text env
    ≡ ok (some loaded)
unfolding load_fulfillment_ingress_settings_from_env parse_digits
env_loaded = refl

loaded-IsSound_example : IsSound loaded
loaded-IsSound_example =
    loaded-IsSound outside.unicode_digit library.fromisoformat int_of_text env loaded env_loaded
