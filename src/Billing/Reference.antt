-- ===== src/Billing/Reference.antt =====
-- backend/src/app/security/checkout_reference.py. HMAC, base64, UTF-8, `json` and the text form of
-- times are parameters. Times are in microseconds from the start of the year 1, in UTC.
pub mod Forgery
pub mod Texts
pub mod RoundTrip
use Prim.Native.Nat.{zero, suc}
use Prim.Native.String.{count}
use startprojectformillion.Base.{
  ℕ, ◌+◌, ◌-◌, ◌*◌, ◌%◌, String, Bool, true, false, not, Option, none, some, List, ltb,
  if◌then◌else◌, str_eq, string_append, no_text, every, strip, lower, is_ascii, rstrip_char,
  padding, ends_in_z, drop_last, replace_from,
}
use startprojectformillion.Shared.{Result, ok, err, validation_error, type_error, ◌>>=◌, ◌>>◌}
use startprojectformillion.Shared.Validation.{ℤ, pos, negsuc, validate_telegram_user_id}
use startprojectformillion.Shared.Json.{
  Json, Fields, nil, field, null, bool, int, real, str, array, object, get, equals_one,
  validate_user_value,
}
use startprojectformillion.Billing.Facts.{Moment, DateTime, naive, aware}

pub record CheckoutReferencePayload : Type 0 where
  pub schema_version : ℕ
  pub issued_at : String
  pub telegram_user_id : ℕ
  pub internal_user_id : Option String

pub record SignedCheckoutReference : Type 0 where
  pub reference_id : String
  pub reference_proof : String
  pub payload : CheckoutReferencePayload

-- The functions of `hmac`, `base64`, `json`, `datetime` and of the UTF-8 codec that the references use;
-- `none` is a `ValueError`.
pub record Library : Type 0 where
  -- `hmac.new(secret, text, sha256).hexdigest()` of the UTF-8 of both
  pub hexdigest : String → String → String
  pub encode_utf8 : String → List ℕ
  pub decode_utf8 : List ℕ → Option String
  pub urlsafe_b64encode : List ℕ → String
  pub urlsafe_b64decode : String → Option (List ℕ)
  -- with `separators=(",", ":")` and `sort_keys=True`
  pub dumps : Fields → String
  pub loads : String → Option Json
  -- of a time in UTC
  pub isoformat : ℕ → String
  pub fromisoformat : String → Option DateTime

abbrev pub max_reference_id_len : ℕ
max_reference_id_len = 2048

abbrev pub max_reference_proof_len : ℕ
max_reference_proof_len = 256

abbrev pub second : ℕ
second = 1000000

abbrev pub guard : Bool → Result Unit
guard true = ok tt
guard false = err validation_error

-- `except ValueError`
abbrev pub parsed : {A : Type 0} → Option A → Result A
parsed none = err validation_error
parsed (some a) = ok a

-- `hmac.compare_digest` of two texts
unfoldable pub compare_digest : String → String → Result Bool
compare_digest a b =
    if every is_ascii a
    then if every is_ascii b then ok (str_eq a b) else err type_error
    else err type_error

unfoldable pub normalize_internal_user_id : Option String → Option String
unfolding strip
normalize_internal_user_id none = none
normalize_internal_user_id (some value) =
    let trimmed = strip value in if no_text trimmed then none else some trimmed

abbrev pub positive : ℤ → Result ℕ
positive (pos (suc n)) = ok (suc n)
positive _ = err validation_error

abbrev pub non_negative : ℤ → Result ℕ
non_negative (pos n) = ok n
non_negative (negsuc n) = err validation_error

-- `datetime.fromisoformat` takes an offset; a final `Z` is written as one.
unfoldable pub with_offset : String → String
unfolding ends_in_z drop_last
with_offset s = if ends_in_z s then string_append (drop_last s) "+00:00" else s

-- `tzinfo is None`
abbrev pub to_utc : DateTime → Result ℕ
to_utc (naive wall) = err validation_error
to_utc (aware t) = ok t.utc

-- A value that must be a text that is not blank.
unfoldable pub issued_text : Json → Result String
unfolding strip
issued_text (str s) = if no_text (strip s) then err validation_error else ok (strip s)
issued_text _ = err validation_error

-- A text or `None`
abbrev pub optional_text : Json → Result (Option String)
optional_text null = ok none
optional_text (str s) = ok (some s)
optional_text _ = err validation_error

abbrev pub fields_of : Json → Result Fields
fields_of (object fields) = ok fields
fields_of _ = err validation_error

unfoldable pub payload_dict : String → ℕ → Option String → Fields
payload_dict issued_at uid none =
    field "schema_version" (int (pos 1))
      (field "issued_at" (str issued_at) (field "telegram_user_id" (int (pos uid)) nil))
payload_dict issued_at uid (some internal) = field "schema_version" (int (pos 1)) (
    field "issued_at" (str issued_at)
      (field "telegram_user_id" (int (pos uid)) (field "internal_user_id" (str internal) nil)))

module _ (lib : Library) where
  unfoldable pub b64url_encode : List ℕ → String
  unfolding rstrip_char
  b64url_encode raw = rstrip_char b'=' (lib.urlsafe_b64encode raw)

  -- What is not ASCII has no `encode("ascii")`.
  unfoldable pub b64url_decode : String → Option (List ℕ)
  unfolding padding
  b64url_decode encoded =
      if every is_ascii encoded
      then lib.urlsafe_b64decode (string_append encoded (padding ((4 - count encoded % 4) % 4)))
      else none

  -- `now`, to the second, as text
  unfoldable pub issued_at_text : ℕ → String
  unfolding replace_from
  issued_at_text now = replace_from 0 "+00:00" "Z" (lib.isoformat (now - now % second))

  unfoldable pub create_signed_checkout_reference :
      ℤ → Option String → String → ℕ → Result SignedCheckoutReference
  unfolding validate_telegram_user_id normalize_internal_user_id issued_at_text payload_dict
      b64url_encode
  create_signed_checkout_reference telegram_user_id internal_user_id secret now = do
    uid ← validate_telegram_user_id telegram_user_id
    let internal = normalize_internal_user_id internal_user_id
    let issued_at = issued_at_text now
    let id = b64url_encode (lib.encode_utf8 (lib.dumps (payload_dict issued_at uid internal)))
    ok (record {
      reference_id = id;
      reference_proof = lib.hexdigest secret id;
      payload = record {
        schema_version = 1;
        issued_at = issued_at;
        telegram_user_id = uid;
        internal_user_id = internal;
      };
    })

  abbrev pub decode_payload : String → Option Json
  decode_payload id = elim (b64url_decode id) [
    | none ↦ none
    | some raw ↦ elim (lib.decode_utf8 raw) [ none ↦ none | some s ↦ lib.loads s ]
  ]

  -- The fields of a payload whose proof is right, `max_age` and `max_future` in seconds.
  unfoldable pub read_payload : Fields → ℕ → ℕ → ℕ → Result CheckoutReferencePayload
  unfolding get issued_text with_offset validate_user_value normalize_internal_user_id
  read_payload fields now max_age max_future = do
    guard (equals_one (get "schema_version" fields))
    issued_at ← issued_text (get "issued_at" fields)
    at ← parsed (lib.fromisoformat (with_offset issued_at))
    issued ← to_utc at
    guard (not (ltb (issued + max_age * second) now))
    guard (not (ltb (now + max_future * second) issued))
    uid ← validate_user_value (get "telegram_user_id" fields)
    internal ← optional_text (get "internal_user_id" fields)
    ok (record {
      schema_version = 1;
      issued_at = issued_at;
      telegram_user_id = uid;
      internal_user_id = normalize_internal_user_id internal;
    })

  unfoldable pub verify_signed_checkout_reference :
      String → String → String → ℕ → ℤ → ℤ → Result CheckoutReferencePayload
  unfolding strip lower compare_digest b64url_decode read_payload
  verify_signed_checkout_reference reference_id reference_proof secret now max_age_seconds
        max_future_seconds =
      do
        max_age ← positive max_age_seconds
        max_future ← non_negative max_future_seconds
        let id = strip reference_id
        let proof = lower (strip reference_proof)
        guard (not (no_text id))
        guard (not (ltb max_reference_id_len (count id)))
        guard (not (no_text proof))
        guard (not (ltb max_reference_proof_len (count proof)))
        same ← compare_digest proof (lib.hexdigest secret id)
        guard same
        loaded ← parsed (decode_payload id)
        fields ← fields_of loaded
        read_payload fields now max_age max_future
