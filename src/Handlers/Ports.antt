-- ===== src/Handlers/Ports.antt =====
-- backend/src/app/application/interfaces.py, and the idempotency key of
-- backend/src/app/security/idempotency.py. A call may raise, and may change the surroundings `E`.
use Prim.Native.String.{count}
use startprojectformillion.Base.{
  ℕ, String, Bool, Option, ltb, nat_beq, if◌then◌else◌, str_nat, string_append,
}
use startprojectformillion.Shared.{
  Exec, Result, ok, err, validation_error, InternalErrorCategory, OperationOutcomeCategory,
}
use startprojectformillion.Shared.Validation.{
  ℤ, validate_telegram_user_id, validate_telegram_update_id,
}

pub record IdentityRecord : Type 0 where
  pub internal_user_id : String
  pub telegram_user_id : ℕ

pub record IdempotencyRecord : Type 0 where
  pub key : String
  pub completed : Bool

-- A time is a number of some unit.
pub record SubscriptionSnapshot : Type 0 where
  pub internal_user_id : String
  pub state_label : String
  pub active_until_utc : Option ℕ

pub record AuditEvent : Type 0 where
  pub correlation_id : String
  pub operation : String
  pub outcome : OperationOutcomeCategory
  pub internal_category : Option InternalErrorCategory

-- What the handlers call of `UserIdentityRepository`, `IdempotencyRepository`, `AuditAppender` and
-- the snapshot reader and writer.
pub record Stores (E : Type 0) : Type 0 where
  pub find_by_telegram_user_id : ℕ → Exec E (Option IdentityRecord)
  pub create_if_absent : ℕ → Exec E IdentityRecord
  pub begin_or_get : String → Exec E IdempotencyRecord
  pub complete : String → Exec E Unit
  pub append : AuditEvent → Exec E Unit
  pub get_for_user : String → Exec E (Option SubscriptionSnapshot)
  pub put_if_absent : SubscriptionSnapshot → Exec E Unit

abbrev uc01_scope : String
uc01_scope = "uc01_bootstrap_identity"

abbrev max_key_hex_len : ℕ
max_key_hex_len = 128

abbrev checked_digest : String → Result String
checked_digest digest =
    if ltb max_key_hex_len (count digest) then err validation_error else ok digest

-- `hexdigest` is the SHA-256 of hashlib, in hexadecimal digits.
unfoldable pub build_bootstrap_idempotency_key : (String → String) → ℤ → ℤ → Result String
unfolding validate_telegram_user_id validate_telegram_update_id
build_bootstrap_idempotency_key hexdigest telegram_user_id update_id =
    elim (validate_telegram_user_id telegram_user_id) [
      | err e ↦ err e
      | ok uid ↦ elim (validate_telegram_update_id update_id) [
        | err e ↦ err e
        | ok u ↦
            if nat_beq u 0
            then err validation_error
            else checked_digest (
                hexdigest (
                  string_append (string_append (string_append uc01_scope "|") (str_nat uid))
                    (string_append "|" (str_nat u))))
      ]
    ]
