-- ===== src/Billing/Fulfillment/Headers.antt =====
-- The headers of a signed request in backend/src/app/runtime/payment_fulfillment_ingress.py.
use Prim.Native.String.{count}
use startprojectformillion.Base.{
  ℕ, ◌+◌, String, Bool, ◌||◌, Option, none, some, ltb, nat_beq, if◌then◌else◌, no_text, every,
  is_hex_digit, strip, lower, starts_with, drop_first, parse_digits,
}

-- Past the prefix, if there is one.
abbrev pub digest_part : String → String
digest_part v = if starts_with "sha256=" v then drop_first 7 v else v

unfoldable pub parse_signature_header : String → Option String
unfolding strip lower
parse_signature_header raw =
    let v = lower (strip raw) in
    let digest = digest_part v in
    if no_text v
    then none
    else if nat_beq (count digest) 64
    then (if every is_hex_digit digest then some digest else none)
    else none

-- A header holds characters up to 255: of the digits beyond ASCII among them `int` takes none. Neither
-- does it take more than 4300 digits.
unfoldable pub parse_timestamp_header : String → Option ℕ
unfolding strip parse_digits
parse_timestamp_header raw =
    let s = strip raw in if ltb 4300 (count s) then none else parse_digits s

unfoldable pub stale_request : ℕ → ℕ → ℕ → Bool
stale_request now_epoch_s request_epoch_s max_age_seconds =
    ltb (now_epoch_s + 60) request_epoch_s || ltb (request_epoch_s + max_age_seconds) now_epoch_s
