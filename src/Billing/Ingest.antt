-- ===== src/Billing/Ingest.antt =====
-- backend/src/app/application/billing_ingestion.py, and `PostgresAtomicBillingIngestion`
-- (backend/src/app/persistence/postgres_billing_ingestion_atomic.py). `generated` is the `uuid4` of the
-- call; `unicode_word` says which characters beyond ASCII the class `\w` of `re` holds.
use Prim.Native.String.{count}
use startprojectformillion.Base.{
  ℕ, String, Bool, true, false, ◌&&◌, ◌||◌, not, Option, none, some, [], ◌∷◌, ◌++◌, ltb, leb,
  nat_beq, if◌then◌else◌, strip, no_text, every, is_digit,
}
use startprojectformillion.Shared.{Exec, Result, ok, err, validation_error, ◌>>=◌}
use startprojectformillion.Shared.Validation.{ℤ, negsuc}
use startprojectformillion.Billing.Facts.{
  Moment, DateTime, naive, aware, BillingEventAmountCurrency, BillingEventLedgerStatus,
  BillingEventLedgerRecord, BillingIngestionAuditRecord, status_value,
}
use startprojectformillion.Billing.Tables.{
  Tables, BillingDb, transaction, append_or_get_in_connection,
}

pub record NormalizedBillingFactInput : Type 0 where
  pub billing_provider_key : String
  pub external_event_id : String
  pub event_type : String
  pub event_effective_at : DateTime
  pub event_received_at : DateTime
  pub status : BillingEventLedgerStatus
  pub ingestion_correlation_id : String
  pub internal_user_id : Option String
  pub checkout_attempt_id : Option String
  pub amount_currency : Option BillingEventAmountCurrency
  pub internal_fact_ref : Option String

pub record IngestNormalizedBillingFactResult : Type 0 where
  pub stored : BillingEventLedgerRecord
  pub is_idempotent_replay : Bool

abbrev pub max_id_len : ℕ
max_id_len = 256

unfoldable pub require_non_empty_trimmed : String → ℕ → Result String
unfolding strip
require_non_empty_trimmed value max_len =
    let s = strip value in
    if no_text s
    then err validation_error
    else if ltb max_len (count s)
    then err validation_error
    else ok s

-- `[\x00-\x1f\x7f]`
abbrev pub is_control : ℕ → Bool
is_control c = leb c 31 || nat_beq c 127

abbrev pub no_control : ℕ → Bool
no_control c = not (is_control c)

unfoldable pub optional_trimmed_id : Option String → Result (Option String)
unfolding strip
optional_trimmed_id none = ok none
optional_trimmed_id (some value) =
    let s = strip value in
    if no_text s
    then ok none
    else if ltb max_id_len (count s)
    then err validation_error
    else if every no_control s
    then ok (some s)
    else err validation_error

unfoldable pub validate_tz_aware : DateTime → Result Moment
validate_tz_aware (naive wall) = err validation_error
validate_tz_aware (aware t) = ok t

abbrev pub is_negative : Option ℤ → Bool
is_negative (some (negsuc n)) = true
is_negative _ = false

unfoldable pub currency_fits : Option String → Bool
unfolding strip
currency_fits none = true
currency_fits (some code) = let s = strip code in not (no_text s) && leb (count s) 16

unfoldable pub validate_amount_currency :
    Option BillingEventAmountCurrency → Result (Option BillingEventAmountCurrency)
unfolding currency_fits
validate_amount_currency none = ok none
validate_amount_currency (some amount) =
    if is_negative amount.amount_minor_units
    then err validation_error
    else if currency_fits amount.currency_code
    then ok (some amount)
    else err validation_error

module _ (unicode_word : ℕ → Bool) where
  -- `[\w.\-:]`
  abbrev pub is_ref_char : ℕ → Bool
  is_ref_char c =
      is_digit c
      || (leb b'A' c && leb c b'Z'
          || (leb b'a' c && leb c b'z'
              || (nat_beq c b'_'
                  || (nat_beq c b'.'
                      || (nat_beq c b'-' || (nat_beq c b':' || leb 128 c && unicode_word c))))))

  -- A reference after `strip`: `_REF_SAFE` and `_UC05_REF_SAFE` are the same pattern.
  unfoldable pub validate_ref : String → Result String
  unfolding strip
  validate_ref value =
      let s = strip value in
      if no_text s
      then err validation_error
      else if ltb max_id_len (count s)
      then err validation_error
      else if every is_ref_char s
      then ok s
      else err validation_error

  unfoldable pub resolve_internal_fact_ref_for_ingest : String → Option String → Result String
  unfolding validate_ref
  resolve_internal_fact_ref_for_ingest generated none = ok generated
  resolve_internal_fact_ref_for_ingest generated (some provided) = validate_ref provided

  unfoldable pub build_ledger_record_for_ingest :
      String → NormalizedBillingFactInput → Result BillingEventLedgerRecord
  unfolding require_non_empty_trimmed validate_tz_aware optional_trimmed_id validate_amount_currency
      resolve_internal_fact_ref_for_ingest
  build_ledger_record_for_ingest generated input = do
    pkey ← require_non_empty_trimmed input.billing_provider_key max_id_len
    ext ← require_non_empty_trimmed input.external_event_id max_id_len
    ev_type ← require_non_empty_trimmed input.event_type 128
    corr ← require_non_empty_trimmed input.ingestion_correlation_id 256
    t_eff ← validate_tz_aware input.event_effective_at
    t_rec ← validate_tz_aware input.event_received_at
    user ← optional_trimmed_id input.internal_user_id
    checkout ← optional_trimmed_id input.checkout_attempt_id
    amount ← validate_amount_currency input.amount_currency
    ref ← resolve_internal_fact_ref_for_ingest generated input.internal_fact_ref
    ok (record {
      internal_fact_ref = ref;
      billing_provider_key = pkey;
      external_event_id = ext;
      event_type = ev_type;
      event_effective_at = t_eff;
      event_received_at = t_rec;
      internal_user_id = user;
      checkout_attempt_id = checkout;
      amount_currency = amount;
      status = input.status;
      ingestion_correlation_id = corr;
    })

  abbrev pub ingestion_outcome : Bool → String
  ingestion_outcome is_replay = if is_replay then "idempotent_replay" else "accepted"

  abbrev pub ingestion_audit_of : BillingEventLedgerRecord → Bool → BillingIngestionAuditRecord
  ingestion_audit_of stored is_replay = record {
    internal_fact_ref = stored.internal_fact_ref;
    billing_provider_key = stored.billing_provider_key;
    external_event_id = stored.external_event_id;
    ingestion_correlation_id = stored.ingestion_correlation_id;
    operation = "billing_fact_ingested";
    outcome = ingestion_outcome is_replay;
    billing_event_status = status_value stored.status;
    is_idempotent_replay = is_replay;
  }

  -- The body of the transaction.
  unfoldable pub ingest_in_transaction :
      BillingEventLedgerRecord → Tables → Result IngestNormalizedBillingFactResult × Tables
  unfolding append_or_get_in_connection
  ingest_in_transaction constructed t =
      let (r, t1) = append_or_get_in_connection constructed t in
      elim r [
        | err e ↦ (err e, t1)
        | ok (stored, inserted_new) ↦ (
          ok (record { stored = stored; is_idempotent_replay = not inserted_new }),
          record t1 {
            ingestion_audit =
                t1.ingestion_audit ++ ingestion_audit_of stored (not inserted_new) ∷ [];
          },
        )
      ]

  unfoldable pub ingest_normalized_billing_fact :
      String → NormalizedBillingFactInput → Exec BillingDb IngestNormalizedBillingFactResult
  unfolding build_ledger_record_for_ingest ingest_in_transaction transaction
  ingest_normalized_billing_fact generated input db =
      elim (build_ledger_record_for_ingest generated input) [
        | err e ↦ (err e, db)
        | ok constructed ↦ transaction (ingest_in_transaction constructed) db
      ]
