-- ===== src/Billing/Reference/Texts.antt =====
-- The texts of checkout references and their times, on the way there and back.
use Prim.Native.String.{count}
use startprojectformillion.Base.{
  ℕ, ◌+◌, ◌-◌, ◌%◌, ◌≤◌, ◌<◌, List, sym, replace_from, String, Bool, true, false, not, ◌&&◌, ◌||◌,
  Option, none, some, ◌≡◌, refl, arith, string_append, leb, nat_beq, is_space, is_digit,
  is_hex_digit, is_ascii, no_text, every, every_weaken, strip, strip-every, strip-strip, lower,
  lower-every, eq_refl, padding, no_equals, rstrip_char-append, replace-ending, ends_in_z-append,
  drop_last-append, every-append, not_empty, no_text-count,
}
use startprojectformillion.Shared.{ok}
use startprojectformillion.Shared.Validation.{pos, max_id, validate_telegram_user_id}
use startprojectformillion.Shared.Json.{str}
use startprojectformillion.Billing.Reference.{
  Library, normalize_internal_user_id, b64url_encode, b64url_decode, with_offset, issued_text,
  compare_digest,
}

-- `[A-Za-z0-9_-]`
abbrev pub is_url_safe : ℕ → Bool
is_url_safe c =
    is_digit c
    || (leb b'A' c && leb c b'Z'
        || (leb b'a' c && leb c b'z' || (nat_beq c b'-' || nat_beq c b'_')))

-- The characters of an ISO date and time, without its offset.
abbrev pub is_iso_char : ℕ → Bool
is_iso_char c = is_digit c || (nat_beq c b'-' || (nat_beq c b':' || nat_beq c b'T'))

pub normalize_again :
    (internal : Option String)
    → normalize_internal_user_id (normalize_internal_user_id internal)
      ≡ normalize_internal_user_id internal
unfolding normalize_internal_user_id
normalize_again none = refl
normalize_again (some s) = ground (arith, strip-strip s)

pub url_safe_clean : (c : ℕ) → is_url_safe c ≡ true → is_space c ≡ false
unfolding is_space
url_safe_clean c h = ground arith

pub iso_clean : (c : ℕ) → is_iso_char c ≡ true → is_space c ≡ false
unfolding is_space
iso_clean c h = ground arith

pub iso_or_z_clean : (c : ℕ) → (is_iso_char c || nat_beq c b'Z') ≡ true → is_space c ≡ false
unfolding is_space
iso_or_z_clean c h = ground arith

pub hex_clean : (c : ℕ) → is_hex_digit c ≡ true → is_space c ≡ false
unfolding is_space
hex_clean c h = ground arith

pub user_id_valid :
    (uid : ℕ) → 0 < uid → uid ≤ max_id → validate_telegram_user_id (pos uid) ≡ ok uid
unfolding validate_telegram_user_id
user_id_valid uid some_user in_range = ground (arith, some_user, in_range)

-- The written time, and what verification makes of it.
module _ (lib : Library) (t : ℕ) (front : String)
    (written : lib.isoformat t ≡ string_append front "+00:00")
    (iso : every is_iso_char front ≡ true) where
  pub replaced : replace_from 0 "+00:00" "Z" (lib.isoformat t) ≡ string_append front "Z"
  unfolding replace_from
  replaced = rw written (
      replace-ending "+" "00:00" "Z" front
        (every_weaken is_iso_char (λ c. not (nat_beq b'+' c)) front (λ c h. ground arith) iso) refl)

-- The reference, whose padding is stripped and restored.
pub restored :
    (lib : Library) (raw : List ℕ) (core : String) (k : ℕ)
    → lib.urlsafe_b64encode raw ≡ string_append core (padding k)
    → k ≤ 2
    → (count core + k) % 4 ≡ 0
    → every is_url_safe core ≡ true
    → lib.urlsafe_b64decode (lib.urlsafe_b64encode raw) ≡ some raw
    → (b64url_encode lib raw ≡ core) × (b64url_decode lib core ≡ some raw)
unfolding b64url_encode b64url_decode
restored lib raw core k encoded few whole safe decoded =
    let pads : (4 - count core % 4) % 4 ≡ k = omega arith in
    let stripped : b64url_encode lib raw ≡ core = rw encoded (
      rstrip_char-append core k
        (every_weaken is_url_safe no_equals core (λ c h. ground arith) safe)) in
    let ascii : every is_ascii core ≡ true =
      every_weaken is_url_safe is_ascii core (λ c h. ground arith) safe in
    (stripped, rw (ascii, pads, sym encoded) decoded)

-- A time that is written with `Z` is read as it was written.
pub issued_read :
    (front : String)
    → every is_iso_char front ≡ true
    → let s = string_append front "Z" in
      (issued_text (str s) ≡ ok s) × (with_offset s ≡ string_append front "+00:00")
unfolding issued_text with_offset
issued_read front iso =
    let s = string_append front "Z" in
    let p : ℕ → Bool = λ c. is_iso_char c || nat_beq c b'Z' in
    let chars : every p s ≡ true =
      rw (every-append p front "Z", every_weaken is_iso_char p front (λ c h. ground arith) iso)
        refl in
    let clean : (c : ℕ) → p c ≡ true → is_space c ≡ false = λ c h. iso_or_z_clean c h in
    (
      rw (strip-every p s clean chars, not_empty front "Z" refl) refl,
      rw (ends_in_z-append front, drop_last-append front) refl,
    )

pub digest_clean :
    (digest : String)
    → every is_hex_digit digest ≡ true
    → count digest ≡ 64
    → (lower (strip digest) ≡ digest)
      × (no_text digest ≡ false)
      × (compare_digest digest digest ≡ ok true)
unfolding compare_digest
digest_clean digest hex long =
    let ascii : every is_ascii digest ≡ true =
      every_weaken is_hex_digit is_ascii digest (λ c h. ground arith) hex in
    (
      rw (strip-every is_hex_digit digest hex_clean hex) (lower-every digest hex),
      no_text-count digest (ground arith),
      rw (ascii, eq_refl digest) refl,
    )
