-- ===== src/Billing/Reference/Forgery.antt =====
-- What a verified reference proves.
use startprojectformillion.Base.{
  ℕ, ◌+◌, ◌*◌, ◌≤◌, String, true, some, ◌≡◌, arith, inl, inr, strip, lower, eq_iff, Option-cases,
}
use startprojectformillion.Shared.{Result, ok, Result-cases, ◌>>=◌}
use startprojectformillion.Shared.Validation.{ℤ, pos}
use startprojectformillion.Shared.Json.{Json, Fields, nil, object, get, validate_user_value}
use startprojectformillion.Billing.Reference.{
  with_offset, Library, CheckoutReferencePayload, read_payload, verify_signed_checkout_reference,
  compare_digest, parsed, to_utc, issued_text, second, fields_of, decode_payload,
}

-- `datetime.fromisoformat` of the text, with its final `Z` as an offset, in UTC
abbrev pub time_of : Library → String → Result ℕ
time_of lib issued_at = parsed (lib.fromisoformat (with_offset issued_at)) >>= to_utc

read_payload-facts :
    (lib : Library) (fields : Fields) (now max_age max_future : ℕ)
    (payload : CheckoutReferencePayload)
    → read_payload lib fields now max_age max_future ≡ ok payload
    → (issued : ℕ) × ((time_of lib payload.issued_at ≡ ok issued)
        × (now ≤ issued + max_age * second)
        × (issued ≤ now + max_future * second)
        × (validate_user_value (get "telegram_user_id" fields) ≡ ok payload.telegram_user_id))
unfolding read_payload
read_payload-facts lib fields now max_age max_future payload h =
    elim (Result-cases (issued_text (get "issued_at" fields))) [
      | inl (e, bad) ↦ (0, ground (arith, h, bad))
      | inr (issued_at, is_text) ↦ elim (Result-cases (time_of lib issued_at)) [
        | inl (e, bad) ↦ (0, ground (arith, h, is_text, bad))
        | inr (issued, is_time) ↦ (issued, ground (arith, h, is_text, is_time))
      ]
    ]

fields_of_ok :
    (loaded : Json) (fields : Fields) → fields_of loaded ≡ ok fields → loaded ≡ object fields
fields_of_ok loaded fields h = ground arith

same_digest : (a b : String) → compare_digest a b ≡ ok true → a ≡ b
unfolding compare_digest
same_digest a b h = ground (arith, h, eq_iff a b)

digest-matches :
    (lib : Library) (id proof secret : String) (now : ℕ) (max_age max_future : ℤ)
    (payload : CheckoutReferencePayload)
    → verify_signed_checkout_reference lib id proof secret now max_age max_future ≡ ok payload
    → compare_digest (lower (strip proof)) (lib.hexdigest secret (strip id)) ≡ ok true
unfolding verify_signed_checkout_reference
digest-matches lib id proof secret now max_age max_future payload h =
    elim (Result-cases (compare_digest (lower (strip proof)) (lib.hexdigest secret (strip id)))) [
      | inl (e, bad) ↦ ground (arith, h, bad)
      | inr (same, compared) ↦ ground (arith, h, compared)
    ]

payload-read :
    (lib : Library) (id proof secret : String) (now max_age max_future : ℕ)
    (payload : CheckoutReferencePayload)
    → verify_signed_checkout_reference lib id proof secret now (pos max_age) (pos max_future)
      ≡ ok payload
    → (fields : Fields) × ((decode_payload lib (strip id) ≡ some (object fields))
        × (read_payload lib fields now max_age max_future ≡ ok payload))
unfolding verify_signed_checkout_reference
payload-read lib id proof secret now max_age max_future payload h =
    elim (Option-cases (decode_payload lib (strip id))) [
      | inl absent ↦ (nil, ground (arith, h, absent))
      | inr (loaded, found) ↦ elim (Result-cases (fields_of loaded)) [
        | inl (e, bad) ↦ (nil, ground (arith, h, found, bad))
        | inr (fields, are) ↦
            (fields, ground (arith, h, found, are, fields_of_ok loaded fields are))
      ]
    ]

-- Where a checkout reference is accepted, its proof, stripped and in lower case, is the HMAC of the
-- stripped reference under the secret. The reference decodes to a JSON object which names the Telegram
-- user of the accepted payload, and its time of issue is at most `max_age` seconds before now and at
-- most `max_future` seconds after. No law of the library is assumed.
pub verified_is_signed :
    (lib : Library) (id proof secret : String) (now max_age max_future : ℕ)
    (payload : CheckoutReferencePayload)
    → verify_signed_checkout_reference lib id proof secret now (pos max_age) (pos max_future)
      ≡ ok payload
    → (lower (strip proof) ≡ lib.hexdigest secret (strip id))
      × ((fields : Fields) × ((issued : ℕ) × ((decode_payload lib (strip id) ≡ some (object fields))
              × (validate_user_value (get "telegram_user_id" fields) ≡ ok payload.telegram_user_id)
              × (time_of lib payload.issued_at ≡ ok issued)
              × (now ≤ issued + max_age * second)
              × (issued ≤ now + max_future * second))))
verified_is_signed lib id proof secret now max_age max_future payload h =
    let signed = digest-matches lib id proof secret now (pos max_age) (pos max_future) payload h in
    let (fields, (decoded, read)) =
      payload-read lib id proof secret now max_age max_future payload h in
    let (issued, (at, old, new, user)) =
      read_payload-facts lib fields now max_age max_future payload read in
    (
      same_digest (lower (strip proof)) (lib.hexdigest secret (strip id)) signed,
      (fields, (issued, (decoded, user, at, old, new))),
    )
