-- ===== src/Billing/Fulfillment/Safe.antt =====
-- What an answer of the ingress says of the request and of the tables.
use startprojectformillion.Base.{
  ℕ, ◌+◌, ◌≤◌, String, Bool, some, ◌≡◌, ◌⊎◌, inl, inr, refl, arith, strip, eq_iff, eq_refl,
  Option-cases,
}
use startprojectformillion.Shared.{ok}
use startprojectformillion.Billing.Fulfillment.{handler, handle_signed, is_signed}
use startprojectformillion.Billing.Fulfillment.Parts.{
  Request, Call, Outside, Ingress, JsonResponse, json_error,
}
use startprojectformillion.Billing.Fulfillment.Headers.{
  parse_signature_header, parse_timestamp_header, stale_request,
}
use startprojectformillion.Billing.Fulfillment.Identity.{FulfillmentIngressSettings}

-- The request carries the HMAC of its own time and body under the secret, and its time is at most
-- `max_age_seconds` before now and at most a minute after.
abbrev pub IsSigned : Outside → FulfillmentIngressSettings → Request → Call → Type 0
IsSigned outside settings request call =
    (epoch : ℕ) × ((parse_timestamp_header request.timestamp_header ≡ some epoch)
      × (parse_signature_header request.signature_header
          ≡ some (
              outside.signature_hex_for settings.secret (strip request.timestamp_header)
                request.body))
      × (call.now_epoch ≤ epoch + settings.max_age_seconds)
      × (epoch ≤ call.now_epoch + 60))

abbrev pub unauthorized : JsonResponse
unauthorized = json_error 401 "unauthorized"

-- Either the request is signed and fresh, and the handler is what it does with the body; or it answers
-- `401 unauthorized`, having changed nothing of the database and told the notifier nothing.
pub handler-IsSigned :
    (outside : Outside) (settings : FulfillmentIngressSettings) (has_notifier : Bool)
    (request : Request) (call : Call) (s : Ingress)
    → (IsSigned outside settings request call
        × (handler outside settings has_notifier request call s
            ≡ handle_signed outside settings has_notifier request.body call s))
      ⊎ (let (r, s') = handler outside settings has_notifier request call s in
          (r ≡ ok unauthorized) × (s'.db ≡ s.db) × (s'.notices ≡ s.notices))
unfolding handler is_signed stale_request
handler-IsSigned outside settings has_notifier request call s =
    let expected : String =
      outside.signature_hex_for settings.secret (strip request.timestamp_header) request.body in
    elim (Option-cases (parse_timestamp_header request.timestamp_header)) [
      | inl bad ↦ inr (rw (bad, handler) refl, rw (bad, handler) refl, rw (bad, handler) refl)
      | inr (epoch, timed) ↦ elim (Option-cases (parse_signature_header request.signature_header)) [
        | inl bad ↦ inr (ground (arith, timed, bad))
        | inr (digest, given) ↦ ground (arith, timed, given, eq_iff digest expected)
      ]
    ]

-- What is signed and fresh is handled.
pub handler-passes :
    (outside : Outside) (settings : FulfillmentIngressSettings) (has_notifier : Bool)
    (request : Request) (call : Call) (s : Ingress)
    → IsSigned outside settings request call
    → handler outside settings has_notifier request call s
      ≡ handle_signed outside settings has_notifier request.body call s
unfolding handler is_signed stale_request
handler-passes outside settings has_notifier request call s (epoch, (timed, given, fresh, ahead)) =
    ground (
      arith,
      timed,
      given,
      fresh,
      ahead,
      eq_refl
          (outside.signature_hex_for settings.secret (strip request.timestamp_header) request.body),
    )
