-- ===== src/Bot/Normalized.antt =====
-- From a bounded line of text to a handler's input (backend/src/app/bot_transport/normalized.py).
pub mod Accepted
use Prim.Native.Char.{code}
use Prim.Native.String.{count}
use startprojectformillion.Base.{
  ℕ, String, Bool, true, false, ◌||◌, Option, none, some, ltb, nat_beq, if◌then◌else◌, is_space,
  no_text, strip, lower, str_eq, ◌≡◌, refl,
}
use startprojectformillion.Shared.{Result, ok, err}
use startprojectformillion.Shared.Correlation.{require_correlation_id}
use startprojectformillion.Shared.Validation.{
  ℤ, validate_telegram_user_id, validate_telegram_update_id,
}
use startprojectformillion.Handlers.Bootstrap.{BootstrapIdentityInput}
use startprojectformillion.Handlers.Status.{GetSubscriptionStatusInput}
use startprojectformillion.Handlers.Resend.{
  TelegramAccessResendInput, TelegramAccessResendSourceCommand,
}

abbrev pub max_line_len : ℕ
max_line_len = 512

abbrev pub max_command_token_len : ℕ
max_command_token_len = 64

pub record TransportIncomingEnvelope : Type 0 where
  pub telegram_user_id : ℤ
  pub correlation_id : String
  pub telegram_update_id : Option ℤ
  pub normalized_command_text : Option String

pub data NormalizationRejectReason : Type 0 where
  unknown_command invalid_input : NormalizationRejectReason
  missing_event_id_for_bootstrap missing_event_id_for_resend : NormalizationRejectReason

pub data NormalizedSlice1Result : Type 0 where
  normalized_bootstrap : BootstrapIdentityInput → NormalizedSlice1Result
  normalized_status : GetSubscriptionStatusInput → NormalizedSlice1Result
  normalized_resend_access : TelegramAccessResendInput → NormalizedSlice1Result
  normalized_help normalized_plans normalized_buy : String → NormalizedSlice1Result
  normalized_success normalized_renew : String → NormalizedSlice1Result
  normalized_support_menu normalized_support_contact : String → NormalizedSlice1Result
  normalized_rejected : NormalizationRejectReason → NormalizedSlice1Result

-- `text.split()[0]`, for a text that does not begin with white space
unfoldable pub first_word : String → String
unfolding is_space
first_word String.[] = ""
first_word (String.◌∷◌ c s) =
    let rest = first_word s in if is_space (code c) then "" else String.◌∷◌ c rest

-- `first.split("@", 1)[0]`, and `first` itself where it has no "@"
unfoldable pub before_at : String → String
before_at String.[] = ""
before_at (String.◌∷◌ c s) =
    let rest = before_at s in if nat_beq (code c) b'@' then "" else String.◌∷◌ c rest

-- `none` for `None`: the text of an envelope is a `str` or absent.
unfoldable pub normalize_command_token : Option String → Option String
unfolding strip first_word before_at lower
normalize_command_token none = none
normalize_command_token (some raw) =
    let s = strip raw in
    let first = before_at (first_word s) in
    if no_text s
    then none
    else if ltb max_line_len (count s)
    then none
    else if ltb max_command_token_len (count first)
    then none
    else some (lower first)

-- The allowlists.
abbrev pub is_bootstrap_command : String → Bool
is_bootstrap_command token = str_eq token "/start"

abbrev pub is_status_command : String → Bool
is_status_command token = str_eq token "/status" || str_eq token "/my_subscription"

abbrev pub is_resend_command : String → Bool
is_resend_command token = str_eq token "/resend_access" || str_eq token "/get_access"

-- The commands that need no input but the correlation identifier.
unfoldable pub parse_reading : String → String → NormalizedSlice1Result
parse_reading cid token =
    if str_eq token "/help" || str_eq token "/menu"
    then NormalizedSlice1Result.normalized_help cid
    else if str_eq token "/plans"
    then NormalizedSlice1Result.normalized_plans cid
    else if str_eq token "/buy" || str_eq token "/checkout"
    then NormalizedSlice1Result.normalized_buy cid
    else if str_eq token "/success"
    then NormalizedSlice1Result.normalized_success cid
    else if str_eq token "/renew"
    then NormalizedSlice1Result.normalized_renew cid
    else if str_eq token "/support"
    then NormalizedSlice1Result.normalized_support_menu cid
    else if str_eq token "/support_contact"
    then NormalizedSlice1Result.normalized_support_contact cid
    else NormalizedSlice1Result.normalized_rejected NormalizationRejectReason.unknown_command

-- The check of the event's identifier, which `/start` and the resend commands need.
unfoldable pub with_event_id :
    TransportIncomingEnvelope
    → NormalizationRejectReason
    → (ℤ → NormalizedSlice1Result)
    → NormalizedSlice1Result
unfolding validate_telegram_update_id
with_event_id envelope missing next = elim envelope.telegram_update_id [
  | none ↦ NormalizedSlice1Result.normalized_rejected missing
  | some update_id ↦ elim (validate_telegram_update_id update_id) [
    | err e ↦ NormalizedSlice1Result.normalized_rejected NormalizationRejectReason.invalid_input
    | ok u ↦ next update_id
  ]
]

abbrev pub bootstrap_of : TransportIncomingEnvelope → ℤ → NormalizedSlice1Result
bootstrap_of envelope update_id = NormalizedSlice1Result.normalized_bootstrap (record {
  telegram_user_id = envelope.telegram_user_id;
  telegram_update_id = update_id;
  correlation_id = envelope.correlation_id;
})

abbrev pub resend_of :
    TransportIncomingEnvelope → TelegramAccessResendSourceCommand → ℤ → NormalizedSlice1Result
resend_of envelope source_command update_id =
    NormalizedSlice1Result.normalized_resend_access (record {
      telegram_user_id = envelope.telegram_user_id;
      telegram_update_id = update_id;
      correlation_id = envelope.correlation_id;
      source_command = some source_command;
    })

unfoldable pub parse_command : TransportIncomingEnvelope → String → NormalizedSlice1Result
unfolding with_event_id parse_reading
parse_command envelope token =
    if is_bootstrap_command token
    then with_event_id envelope NormalizationRejectReason.missing_event_id_for_bootstrap
        (bootstrap_of envelope)
    else if is_status_command token
    then NormalizedSlice1Result.normalized_status (record {
      telegram_user_id = envelope.telegram_user_id;
      correlation_id = envelope.correlation_id;
    })
    else if is_resend_command token
    then with_event_id envelope NormalizationRejectReason.missing_event_id_for_resend (
        resend_of envelope (
          if str_eq token "/resend_access"
          then TelegramAccessResendSourceCommand.resend_access
          else TelegramAccessResendSourceCommand.get_access))
    else parse_reading envelope.correlation_id token

unfoldable pub parse_token : TransportIncomingEnvelope → Option String → NormalizedSlice1Result
unfolding parse_command
parse_token envelope none =
    NormalizedSlice1Result.normalized_rejected NormalizationRejectReason.invalid_input
parse_token envelope (some token) = parse_command envelope token

unfoldable pub parse_slice1_transport : TransportIncomingEnvelope → NormalizedSlice1Result
unfolding require_correlation_id validate_telegram_user_id normalize_command_token parse_token
parse_slice1_transport envelope =
    let invalid : NormalizedSlice1Result =
      NormalizedSlice1Result.normalized_rejected NormalizationRejectReason.invalid_input in
    elim (require_correlation_id envelope.correlation_id) [
      | err e ↦ invalid
      | ok cid ↦ elim (validate_telegram_user_id envelope.telegram_user_id) [
        | err e ↦ invalid
        | ok uid ↦ parse_token envelope (normalize_command_token envelope.normalized_command_text)
      ]
    ]

token_runs :
    (normalize_command_token (some " /Start@some_bot now ") ≡ some "/start")
    × (normalize_command_token (some "   ") ≡ none)
unfolding normalize_command_token
token_runs = (refl, refl)
