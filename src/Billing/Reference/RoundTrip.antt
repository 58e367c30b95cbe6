-- ===== src/Billing/Reference/RoundTrip.antt =====
-- A created reference verifies. What the library does on the way is assumed at the values of the one
-- call: `decode` undoes `encode`, the URL-safe alphabet, the shape of an ISO time, 64 hex digits.
use Prim.Native.String.{count}
use startprojectformillion.Base.{
  ℕ, zero, suc, ◌+◌, ◌-◌, ◌*◌, ◌%◌, ◌≤◌, ◌<◌, List, String, true, Option, none, some, ◌≡◌, refl,
  ◌∙◌, arith, string_append, le→ltb, is_hex_digit, every, strip-every, padding, no_text-count,
}
use startprojectformillion.Shared.{ok}
use startprojectformillion.Shared.Validation.{pos, max_id, validate_telegram_user_id}
use startprojectformillion.Shared.Json.{Json, Fields, object, str, int, get, validate_user_value}
use startprojectformillion.Billing.Facts.{Moment, aware}
use startprojectformillion.Billing.Reference.{
  Library, SignedCheckoutReference, CheckoutReferencePayload, create_signed_checkout_reference,
  verify_signed_checkout_reference, payload_dict, normalize_internal_user_id, issued_at_text,
  b64url_decode, decode_payload, read_payload, optional_text, second, max_reference_id_len,
}
use startprojectformillion.Billing.Reference.Texts.{
  is_url_safe, is_iso_char, normalize_again, url_safe_clean, user_id_valid, restored, issued_read,
  digest_clean, replaced,
}

abbrev created_payload : String → ℕ → Option String → CheckoutReferencePayload
created_payload front uid internal = record {
  schema_version = 1;
  issued_at = string_append front "Z";
  telegram_user_id = uid;
  internal_user_id = normalize_internal_user_id internal;
}

-- The dictionary of a created reference.
abbrev created_dict : String → ℕ → Option String → Fields
created_dict front uid internal =
    payload_dict (string_append front "Z") uid (normalize_internal_user_id internal)

dict_fields :
    (issued_at : String) (uid : ℕ) (internal : Option String)
    → let d = payload_dict issued_at uid internal in
      (get "schema_version" d ≡ int (pos 1))
      × (get "issued_at" d ≡ str issued_at)
      × (get "telegram_user_id" d ≡ int (pos uid))
      × (optional_text (get "internal_user_id" d) ≡ ok internal)
unfolding payload_dict get
dict_fields issued_at uid none = (refl, refl, refl, refl)
dict_fields issued_at uid (some user) = (refl, refl, refl, refl)

read_created :
    (lib : Library) (front : String) (uid : ℕ) (internal : Option String) (loaded : Fields)
    (at : Moment) (later max_age max_future : ℕ)
    → every is_iso_char front ≡ true
    → lib.fromisoformat (string_append front "+00:00") ≡ some (aware at)
    → ((key : String) → get key loaded ≡ get key (created_dict front uid internal))
    → validate_telegram_user_id (pos uid) ≡ ok uid
    → later ≤ at.utc + max_age * second
    → at.utc ≤ later + max_future * second
    → read_payload lib loaded later max_age max_future ≡ ok (created_payload front uid internal)
unfolding read_payload validate_user_value
read_created lib front uid internal loaded at later max_age max_future iso time same valid old new =
    let d = dict_fields (string_append front "Z") uid (normalize_internal_user_id internal) in
    rw
      (
        same "schema_version",
        same "issued_at",
        same "telegram_user_id",
        same "internal_user_id",
        d.0,
        d.1,
        d.2,
        d.3,
        (issued_read front iso).0,
        (issued_read front iso).1,
        time,
        valid,
        normalize_again internal,
        le→ltb (at.utc + max_age * second) later old,
        le→ltb (later + max_future * second) at.utc new,
      )
      refl

-- A reference with its own digest is read as what it decodes to.
verify_signed :
    (lib : Library) (core secret : String) (loaded : Fields) (later max_age max_future : ℕ)
    → every is_url_safe core ≡ true
    → 0 < count core
    → count core ≤ max_reference_id_len
    → every is_hex_digit (lib.hexdigest secret core) ≡ true
    → count (lib.hexdigest secret core) ≡ 64
    → decode_payload lib core ≡ some (object loaded)
    → 0 < max_age
    → verify_signed_checkout_reference lib core
        (lib.hexdigest secret core)
        secret
        later
        (pos max_age)
        (pos max_future)
      ≡ read_payload lib loaded later max_age max_future
unfolding verify_signed_checkout_reference
verify_signed lib core secret loaded later (suc max_age) max_future safe some_text short hex long
      decoded positive =
    let digest : String = lib.hexdigest secret core in
    let d = digest_clean digest hex long in
    rw
      (
        strip-every is_url_safe core url_safe_clean safe,
        no_text-count core some_text,
        le→ltb max_reference_id_len (count core) short,
        d.0,
        d.1,
        long,
        d.2,
        decoded,
      )
      refl
verify_signed lib core secret loaded later zero max_future safe some_text short hex long decoded
      positive =
    ground (arith, positive)

decodes_as :
    (lib : Library) (core s : String) (raw : List ℕ) (loaded : Json)
    → b64url_decode lib core ≡ some raw
    → lib.decode_utf8 raw ≡ some s
    → lib.loads s ≡ some loaded
    → decode_payload lib core ≡ some loaded
decodes_as lib core s raw loaded padded utf8 loads = ground (arith, padded, utf8, loads)

-- The round trip of checkout references. Create a reference for a valid Telegram user id and any
-- internal id, and verify it later under the same secret, before `max_age` seconds have passed
-- since its time of issue, and with a clock at most `max_future` seconds behind. Then verification
-- returns exactly the payload of the created reference. Assumed of the library, at the values of
-- this call: base64 and UTF-8 decode what they encoded, base64 texts are URL-safe characters with
-- up to two `=` to a length that four divides, `json.loads` gives back the fields of `json.dumps`,
-- a whole second in UTC is written as date and time with `+00:00` and read back, and a digest is 64
-- hexadecimal digits. The reference must not be longer than 2048 characters, which create does not
-- ensure.
pub create-verify :
    (lib : Library) (uid : ℕ) (internal : Option String) (secret : String)
    (now later max_age max_future : ℕ) (front core : String) (k : ℕ) (loaded : Fields)
    → let issued = now - now % second in
      let dict = created_dict front uid internal in
      let raw = lib.encode_utf8 (lib.dumps dict) in
      0 < uid
      → uid ≤ max_id
      → 0 < max_age
      → later ≤ issued + max_age * second
      → issued ≤ later + max_future * second
      → lib.isoformat issued ≡ string_append front "+00:00"
      → every is_iso_char front ≡ true
      → lib.fromisoformat (string_append front "+00:00")
        ≡ some (aware (record { wall = issued; utc = issued }))
      → lib.loads (lib.dumps dict) ≡ some (object loaded)
      → ((key : String) → get key loaded ≡ get key dict)
      → lib.decode_utf8 raw ≡ some (lib.dumps dict)
      → lib.urlsafe_b64encode raw ≡ string_append core (padding k)
      → k ≤ 2
      → (count core + k) % 4 ≡ 0
      → every is_url_safe core ≡ true
      → lib.urlsafe_b64decode (lib.urlsafe_b64encode raw) ≡ some raw
      → 0 < count core
      → count core ≤ max_reference_id_len
      → every is_hex_digit (lib.hexdigest secret core) ≡ true
      → count (lib.hexdigest secret core) ≡ 64
      → (ref : SignedCheckoutReference) × ((create_signed_checkout_reference lib
              (pos uid)
              internal
              secret
              now
            ≡ ok ref)
          × (verify_signed_checkout_reference lib ref.reference_id ref.reference_proof secret later
                (pos max_age)
                (pos max_future)
              ≡ ok ref.payload))
unfolding create_signed_checkout_reference issued_at_text
create-verify lib uid internal secret now later max_age max_future front core k loaded some_user
      in_range positive old new written iso time_read loads same utf8 encoded few whole safe decoded
      some_text short hex long =
    let issued : ℕ = now - now % second in
    let dict : Fields = created_dict front uid internal in
    let raw : List ℕ = lib.encode_utf8 (lib.dumps dict) in
    let (stripped, padded) = restored lib raw core k encoded few whole safe decoded in
    let valid : validate_telegram_user_id (pos uid) ≡ ok uid =
      user_id_valid uid some_user in_range in
    let read =
      read_created lib front uid internal loaded (record { wall = issued; utc = issued }) later
        max_age max_future iso time_read same valid old new in
    let decodes : decode_payload lib core ≡ some (object loaded) =
      decodes_as lib core (lib.dumps dict) raw (object loaded) padded utf8 loads in
    let ref : SignedCheckoutReference = record {
      reference_id = core;
      reference_proof = lib.hexdigest secret core;
      payload = created_payload front uid internal;
    } in
    (
      ref,
      (
        rw (valid, replaced lib issued front written iso, stripped) refl,
        verify_signed lib core secret loaded later max_age max_future safe some_text short hex long
              decodes positive
            ∙ read,
      ),
    )
