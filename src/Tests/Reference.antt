-- ===== src/Tests/Reference.antt =====
-- One checkout reference, with the texts that the libraries give for it.
use startprojectformillion.Base.{
  ℕ, ◌+◌, ◌*◌, ◌≤◌, String, none, some, [], ◌∷◌, ◌≡◌, refl, arith, string_append, padding, lower,
  strip,
}
use startprojectformillion.Shared.{ok}
use startprojectformillion.Shared.Validation.{pos}
use startprojectformillion.Shared.Json.{Fields, object, get, validate_user_value}
use startprojectformillion.Billing.Facts.{aware}
use startprojectformillion.Billing.Reference.{
  Library, SignedCheckoutReference, CheckoutReferencePayload, create_signed_checkout_reference,
  verify_signed_checkout_reference, payload_dict, normalize_internal_user_id, decode_payload,
  second,
}
use startprojectformillion.Billing.Reference.RoundTrip.{create-verify}
use startprojectformillion.Billing.Reference.Forgery.{time_of, verified_is_signed}

abbrev pub front : String
front = "0001-01-01T00:00:05"

abbrev pub core : String
core =
    "eyJpc3N1ZWRfYXQiOiIwMDAxLTAxLTAxVDAwOjAwOjA1WiIsInNjaGVtYV92ZXJzaW9uIjoxLCJ0ZWxlZ3JhbV91c2VyX2lkIjo0Mn0"

abbrev pub digest : String
digest = "96acec6c7b025551ff03f54b02c1efbbf98b0565c53ae7e269ead1ed71437f6d"

abbrev pub fields : Fields
fields = payload_dict "0001-01-01T00:00:05Z" 42 none

abbrev pub json_text : String
json_text = "{\"issued_at\":\"0001-01-01T00:00:05Z\",\"schema_version\":1,\"telegram_user_id\":42}"

-- The libraries at the one reference.
abbrev pub library : Library
library = record {
  hexdigest = λ secret id. digest;
  encode_utf8 = λ s. 123 ∷ 125 ∷ [];
  decode_utf8 = λ raw. some json_text;
  urlsafe_b64encode = λ raw. string_append core "=";
  urlsafe_b64decode = λ encoded. some (123 ∷ 125 ∷ []);
  dumps = λ dict. json_text;
  loads = λ s. some (object fields);
  isoformat = λ t. "0001-01-01T00:00:05+00:00";
  fromisoformat = λ s. some (aware (record { wall = 5000000; utc = 5000000 }));
}

abbrev payload : CheckoutReferencePayload
payload = record {
  schema_version = 1;
  issued_at = "0001-01-01T00:00:05Z";
  telegram_user_id = 42;
  internal_user_id = none;
}

verified :
    verify_signed_checkout_reference library core digest "s3cret" 7000000 (pos 60) (pos 300)
    ≡ ok payload
unfolding verify_signed_checkout_reference payload_dict
verified = refl

create-verify_example :
    (ref : SignedCheckoutReference) × ((create_signed_checkout_reference library
          (pos 42)
          none
          "s3cret"
          5000003
        ≡ ok ref)
      × (verify_signed_checkout_reference library ref.reference_id ref.reference_proof "s3cret"
            7000000
            (pos 60)
            (pos 300)
          ≡ ok ref.payload))
unfolding padding payload_dict normalize_internal_user_id
create-verify_example =
    create-verify library 42 none "s3cret" 5000003 7000000 60 300 front core 1 fields (omega arith)
      (omega arith) (omega arith) (omega arith) (omega arith) refl refl refl refl (λ key. refl) refl
      refl (omega arith) refl refl refl (omega arith) (omega arith) refl refl

verified_is_signed_example :
    (lower (strip digest) ≡ digest)
    × ((fields : Fields) × ((issued : ℕ) × ((decode_payload library (strip core)
              ≡ some (object fields))
            × (validate_user_value (get "telegram_user_id" fields) ≡ ok 42)
            × (time_of library "0001-01-01T00:00:05Z" ≡ ok issued)
            × (7000000 ≤ issued + 60 * second)
            × (issued ≤ 7000000 + 300 * second))))
verified_is_signed_example =
    verified_is_signed library core digest "s3cret" 7000000 60 300 payload verified
