-- ===== src/Billing/Fulfillment/Identity.antt =====
-- `_resolve_identity_from_payload` (backend/src/app/runtime/payment_fulfillment_ingress.py).
use startprojectformillion.Base.{
  ℕ, ◌+◌, ◌*◌, String, Bool, false, ◌&&◌, not, Option, none, some, ltb, nat_beq, if◌then◌else◌,
  no_text,
}
use startprojectformillion.Shared.{Result, ok, err, validation_error, ◌>>=◌, ◌>>◌}
use startprojectformillion.Shared.Validation.{ℤ, pos}
use startprojectformillion.Billing.Facts.{DateTime, naive, aware}
use startprojectformillion.Billing.Tables.{internal_user_id_for_telegram}
use startprojectformillion.Billing.Reference.{
  Library, CheckoutReferencePayload, verify_signed_checkout_reference, with_offset, guard, second,
}
use startprojectformillion.Billing.Fulfillment.Payload.{FulfillmentEventPayload}

-- Without `http_path`, where the handler is mounted.
pub record FulfillmentIngressSettings : Type 0 where
  pub secret : String
  pub provider_key : String
  pub max_age_seconds : ℕ
  pub checkout_reference_secret : Option String
  pub checkout_reference_max_age_seconds : ℤ
  pub strict_checkout_reference_required : Bool
  pub default_subscription_period_days : Option ℕ

abbrev pub max_future_seconds : ℕ
max_future_seconds = 300

-- `value or ""`, and `bool(value)`
abbrev pub or_empty : Option String → String
or_empty none = ""
or_empty (some s) = s

abbrev pub has_text : Option String → Bool
has_text value = not (no_text (or_empty value))

abbrev pub has_reference : FulfillmentEventPayload → Bool
has_reference payload =
    has_text payload.client_reference_id && has_text payload.client_reference_proof

abbrev pub utc_of : Option DateTime → Option ℕ
utc_of none = none
utc_of (some (naive wall)) = none
utc_of (some (aware t)) = some t.utc

-- Paid before the reference was issued, the skew allowed for.
abbrev pub precedes : ℕ → Option ℕ → Bool
precedes paid none = false
precedes paid (some issued) = ltb (paid + max_future_seconds * second) issued

abbrev pub differs : Option ℕ → ℕ → Bool
differs none verified = false
differs (some claimed) verified = not (nat_beq claimed verified)

-- `verified.internal_user_id or _map_to_internal_user_id(...)`
unfoldable pub internal_user_id_of : CheckoutReferencePayload → String
unfolding internal_user_id_for_telegram
internal_user_id_of verified =
    if has_text verified.internal_user_id
    then or_empty verified.internal_user_id
    else internal_user_id_for_telegram verified.telegram_user_id

abbrev claimed_user : Option ℕ → Result (ℕ × String)
claimed_user none = err validation_error
claimed_user (some uid) = ok (uid, internal_user_id_for_telegram uid)

module _ (lib : Library) where
  -- The time that verification has read already, always with an offset.
  abbrev pub issued_time : CheckoutReferencePayload → Option ℕ
  issued_time verified = utc_of (lib.fromisoformat (with_offset verified.issued_at))

  unfoldable pub verified_identity :
      FulfillmentEventPayload → FulfillmentIngressSettings → ℕ → Result (ℕ × String)
  unfolding verify_signed_checkout_reference internal_user_id_of with_offset
  verified_identity payload settings now = do
    guard (has_text settings.checkout_reference_secret)
    verified ←
        verify_signed_checkout_reference lib (or_empty payload.client_reference_id)
          (or_empty payload.client_reference_proof) (or_empty settings.checkout_reference_secret)
          now settings.checkout_reference_max_age_seconds (pos max_future_seconds)
    guard (not (precedes payload.paid_at.utc (issued_time verified)))
    guard (not (differs payload.telegram_user_id verified.telegram_user_id))
    ok (verified.telegram_user_id, internal_user_id_of verified)

  unfoldable pub resolve_identity_from_payload :
      FulfillmentEventPayload → FulfillmentIngressSettings → ℕ → Result (ℕ × String)
  unfolding verified_identity internal_user_id_for_telegram
  resolve_identity_from_payload payload settings now =
      if has_reference payload
      then verified_identity payload settings now
      else if settings.strict_checkout_reference_required
      then err validation_error
      else claimed_user payload.telegram_user_id
