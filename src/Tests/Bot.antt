-- ===== src/Tests/Bot.antt =====
-- The bot transport over a composition that counts its calls.
use startprojectformillion.Base.{
  ℕ, put, string_eq, ◌+◌, String, true, false, none, some, [], ◌∷◌, ◌≡◌, refl, str_nat,
}
use startprojectformillion.Shared.{
  Exec, ok, err, other_exception, OperationOutcomeCategory, SafeUserStatusCategory,
}
use startprojectformillion.Shared.Validation.{
  pos, validate_telegram_user_id, validate_telegram_update_id,
}
use startprojectformillion.Shared.Correlation.{
  sample_id, is_valid_correlation_id, require_correlation_id,
}
use startprojectformillion.Shared.Json.{
  Json, Fields, array, nil, field, int, str, object, get, validate_user_value,
}
use startprojectformillion.Handlers.Bootstrap.{
  BootstrapIdentityInput, BootstrapIdentityResult, validate_bootstrap, bootstrap, bootstrap_created,
  put_default_snapshot_if_absent,
}
use startprojectformillion.Handlers.Ports.{build_bootstrap_idempotency_key}
use startprojectformillion.Handlers.Memory.{
  memory_stores, no_stores, create_if_absent, begin_or_get, complete, append, put_if_absent,
}
use startprojectformillion.Handlers.Status.{GetSubscriptionStatusResult}
use startprojectformillion.Handlers.Status.{GetSubscriptionStatusInput}
use startprojectformillion.Handlers.Resend.{TelegramAccessResendOutcome, ResendParts}
use startprojectformillion.Transport.RateLimit.{TelegramCommandRateLimitKey, default_limiter}
use startprojectformillion.Runtime.Polling.{TelegramRuntimeAction}
use startprojectformillion.Bot.Presentation.{map_slice1_help_to_transport}
use startprojectformillion.Bot.Normalized.{
  TransportIncomingEnvelope, NormalizedSlice1Result, normalize_command_token, parse_command,
  parse_reading, parse_token, parse_slice1_transport,
}
use startprojectformillion.Bot.Normalized.Accepted.{IsAccepted, parse-IsAccepted}
use startprojectformillion.Bot.Adapter.{
  extracted, has_forbidden, validate_update_value, non_empty_str, extract_text, extract_ids,
  extract_from, extract_chat, extract_message, extract_update,
  extract_slice1_envelope_from_telegram_update,
}
use startprojectformillion.Bot.Dispatcher.{
  Slice1Composition, TelegramCommandRateLimitDecisionEvent, run_status, dispatch_parsed,
  dispatch_slice1_transport,
}
use startprojectformillion.Bot.Dispatcher.Limits.{Limit, ObeysLimit, dispatch-limited}
use startprojectformillion.Bot.Catalog.{ReplyMarkup}
use startprojectformillion.Bot.Catalog.Copy.{CatalogSources}
use startprojectformillion.Bot.Runtime.{
  noop_action, handle_slice1_telegram_update_to_rendered_message, extract_private_telegram_user_id,
  private_chat_of, chat_of, same_id, extract_eligible_private_chat_id_from_telegram_like_update,
  handle_slice1_telegram_update, handle_slice1_telegram_update_to_runtime_action,
}
use startprojectformillion.Bot.Runtime.Sent.{IsSentTo, answer_is_sent}
use startprojectformillion.Bot.Runtime.Private.{IsPrivateChat, action_is_private}
use startprojectformillion.Bot.Delivery.{
  DeliveryStatus, DeliveryLedger, no_deliveries, mark_sent, get_status,
}
use startprojectformillion.Bot.Delivery.Final.{ensure, mark, ledger_calls, sent_as, sent_is_final}
use startprojectformillion.Bot.Outbound.Known.{IsKnown}
use startprojectformillion.Bot.Composition.{Slice1State, fresh_state, build_slice1_composition}
use startprojectformillion.Bot.Composition.Shown.{composition-IsKnown}
use startprojectformillion.Bot.Composition.Redelivery.{delivered_start_is_silent}
use startprojectformillion.Tests.Reference.{library}

abbrev chat_seven : Json
chat_seven = object (field "id" (int (pos 7)) (field "type" (str "private") nil))

-- A message of the user 7 in their own chat.
abbrev fields_of_line : String → Fields
fields_of_line line = field "update_id" (int (pos 40)) (
    field "message"
      (object (
        field "chat" chat_seven
          (field "from" (object (field "id" (int (pos 7)) nil)) (field "text" (str line) nil))))
      nil)

abbrev envelope : String → TransportIncomingEnvelope
envelope line = record {
  telegram_user_id = pos 7;
  correlation_id = sample_id;
  telegram_update_id = some (pos 40);
  normalized_command_text = some line;
}

abbrev registered : BootstrapIdentityResult
registered = record {
  outcome = OperationOutcomeCategory.success;
  correlation_id = sample_id;
  internal_user_id = some "u7";
  user_safe = none;
  idempotent_replay = false;
  uc01_idempotency_key = some "key-1";
}

abbrev active_until_900 : GetSubscriptionStatusResult
active_until_900 = record {
  outcome = OperationOutcomeCategory.success;
  correlation_id = sample_id;
  safe_status = SafeUserStatusCategory.subscription_active;
  user_safe = none;
  active_until_utc = some 900;
}

-- The limiter refuses all, and counts what it is asked; the telemetry adds ten.
abbrev strict : Slice1Composition ℕ
strict = record {
  bootstrap = λ inp calls. (ok registered, calls + 1);
  get_status = λ inp calls. (ok active_until_900, calls + 1);
  access_resend = λ inp calls. (
    ok (record {
      outcome = TelegramAccessResendOutcome.not_enabled;
      correlation_id = sample_id;
      resend_idempotency_key = none;
    }),
    calls + 1,
  );
  allow = λ user key calls. (ok false, calls + 100);
  emit_decision = λ event calls. (ok tt, calls + 10);
  outbound_delivery = none;
}

-- Nothing is configured.
abbrev bare_sources : CatalogSources
bare_sources = record {
  read = λ key. none;
  urls = record {
    urlsplit = λ url. none;
    parse_qsl = λ query. [];
    urlencode = λ pairs. "";
    urlunsplit = λ scheme netloc path query. "";
  };
  references = library;
  now = 0;
}

abbrev pending_row : DeliveryLedger
pending_row = record no_deliveries {
  status_by_key = put no_deliveries.status_by_key "key-1" DeliveryStatus.pending;
}

abbrev same_text : String → String
same_text s = s

abbrev quiet : TelegramCommandRateLimitDecisionEvent → Exec Slice1State Unit
quiet event s = (ok tt, s)

-- The resend handler is not enabled.
abbrev no_resend : ResendParts Slice1State
no_resend = record {
  find_identity = λ id s. (ok none, s);
  get_snapshot = λ user s. (ok none, s);
  issuance_service = none;
  issuance_state_lookup = none;
  issuance_state_mutation = none;
  consume_cooldown = λ user now s. (ok true, s);
  record_disabled_hit = λ source s. (ok tt, s);
  enabled = false;
  now_seconds = 5;
  now_utc = 5;
}

abbrev started : BootstrapIdentityInput
started = record {
  telegram_user_id = pos 7;
  telegram_update_id = pos 40;
  correlation_id = sample_id;
}

abbrev start_key : String
start_key = "uc01_bootstrap_identity|7|40"

-- `/start` was handled from empty stores, and its answer was sent as the message 11.
abbrev delivered : Slice1State
delivered = record {
  stores = (bootstrap memory_stores same_text started no_stores).1;
  deliveries = record {
    status_by_key = put no_deliveries.status_by_key start_key DeliveryStatus.sent;
    message_id = put no_deliveries.message_id start_key 11;
  };
  limiter = default_limiter;
}

parse-IsAccepted_example :
    IsAccepted (envelope "/start now") (parse_slice1_transport (envelope "/start now"))
parse-IsAccepted_example = parse-IsAccepted (envelope "/start now")

start_is_parsed :
    parse_slice1_transport (envelope "/start now")
    ≡ NormalizedSlice1Result.normalized_bootstrap (record {
      telegram_user_id = pos 7;
      telegram_update_id = pos 40;
      correlation_id = sample_id;
    })
unfolding parse_slice1_transport parse_token parse_command normalize_command_token
    require_correlation_id is_valid_correlation_id validate_telegram_user_id
    validate_telegram_update_id
start_is_parsed = refl

abbrev asked_status : GetSubscriptionStatusInput
asked_status = record { telegram_user_id = pos 7; correlation_id = sample_id }

abbrev status_limit : Limit ℕ
status_limit = record {
  key = TelegramCommandRateLimitKey.status;
  command = "status";
  window = "status_window";
  correlation_id = sample_id;
  serve = run_status strict str_nat 5 asked_status;
}

dispatch-limited_example :
    ObeysLimit strict str_nat 5
      (envelope "/status")
      status_limit
      (dispatch_slice1_transport strict str_nat 5 (envelope "/status"))
      0
unfolding parse_slice1_transport parse_token parse_command normalize_command_token
    require_correlation_id is_valid_correlation_id validate_telegram_user_id
dispatch-limited_example =
    dispatch-limited strict str_nat 5 (envelope "/status") status_limit 0 refl

help_is_sent :
    (action : TelegramRuntimeAction ReplyMarkup) × ((handle_slice1_telegram_update_to_runtime_action
          strict bare_sources str_nat 5 sample_id
          (object (fields_of_line "/help"))
          none
          0
        ≡ (ok action, 0))
      × IsSentTo 7 sample_id action)
unfolding handle_slice1_telegram_update extract_slice1_envelope_from_telegram_update extract_update
    extract_message extract_chat extract_from extract_ids extract_text non_empty_str has_forbidden
    validate_update_value validate_user_value get validate_telegram_update_id
    validate_telegram_user_id require_correlation_id is_valid_correlation_id
    dispatch_slice1_transport dispatch_parsed parse_slice1_transport parse_token parse_command
    parse_reading normalize_command_token map_slice1_help_to_transport private_chat_of chat_of
    same_id extract_eligible_private_chat_id_from_telegram_like_update
help_is_sent =
    answer_is_sent strict bare_sources str_nat 5 sample_id (object (fields_of_line "/help")) none 0
      0 (map_slice1_help_to_transport sample_id) 7 refl refl refl

answer_is_sent_example :
    (action : TelegramRuntimeAction ReplyMarkup) × ((handle_slice1_telegram_update_to_runtime_action
          strict bare_sources str_nat 5 sample_id
          (object (fields_of_line "/help"))
          none
          0
        ≡ (ok action, 0))
      × IsSentTo 7 sample_id action)
unfolding handle_slice1_telegram_update extract_slice1_envelope_from_telegram_update extract_update
    extract_message extract_chat extract_from extract_ids extract_text non_empty_str has_forbidden
    validate_update_value validate_user_value get validate_telegram_update_id
    validate_telegram_user_id require_correlation_id is_valid_correlation_id
    dispatch_slice1_transport dispatch_parsed parse_slice1_transport parse_token parse_command
    parse_reading normalize_command_token map_slice1_help_to_transport private_chat_of chat_of
    same_id extract_eligible_private_chat_id_from_telegram_like_update
answer_is_sent_example =
    answer_is_sent strict bare_sources str_nat 5 sample_id (object (fields_of_line "/help")) none 0
      0 (map_slice1_help_to_transport sample_id) 7 refl refl refl

action_is_private_example :
    IsPrivateChat (object (fields_of_line "/help")) 7
    × ((e : TransportIncomingEnvelope)
        → extract_slice1_envelope_from_telegram_update sample_id none
            (object (fields_of_line "/help"))
          ≡ extracted e
        → e.telegram_user_id ≡ pos 7)
unfolding IsSentTo
action_is_private_example =
    action_is_private strict bare_sources str_nat 5 sample_id (object (fields_of_line "/help")) none
      0 0 help_is_sent.0 7 help_is_sent.1.0 help_is_sent.1.1.1

sent_is_final_example :
    (get_status "key-1" (
      ledger_calls
        (ensure "key-1" ∷ (mark "key-1" 12 ∷ []))
        (mark_sent "key-1" 11 pending_row).1)).0
    ≡ ok (some (sent_as 11))
sent_is_final_example =
    sent_is_final "key-1" 11 pending_row (ensure "key-1" ∷ (mark "key-1" 12 ∷ [])) refl

composition-IsKnown_example : IsKnown (map_slice1_help_to_transport sample_id)
unfolding dispatch_slice1_transport dispatch_parsed parse_slice1_transport parse_token parse_command
    parse_reading normalize_command_token map_slice1_help_to_transport require_correlation_id
    is_valid_correlation_id validate_telegram_user_id
composition-IsKnown_example =
    composition-IsKnown same_text none no_resend quiet 5 5 str_nat (envelope "/help") fresh_state
      fresh_state (map_slice1_help_to_transport sample_id) refl

delivered_start_is_silent_example :
    handle_slice1_telegram_update_to_runtime_action
      (build_slice1_composition same_text none no_resend quiet 5 5)
      bare_sources
      str_nat
      5
      sample_id
      (object (fields_of_line "/start"))
      none
      delivered
    ≡ (ok (noop_action sample_id), delivered)
unfolding extract_slice1_envelope_from_telegram_update extract_update extract_message extract_chat
    extract_from extract_ids extract_text non_empty_str has_forbidden validate_update_value
    validate_user_value get validate_telegram_update_id validate_telegram_user_id
    require_correlation_id is_valid_correlation_id parse_slice1_transport parse_token parse_command
    normalize_command_token bootstrap validate_bootstrap build_bootstrap_idempotency_key
    bootstrap_created begin_or_get create_if_absent put_default_snapshot_if_absent put_if_absent
    append complete str_nat
delivered_start_is_silent_example =
    delivered_start_is_silent same_text none no_resend quiet 5 5 bare_sources str_nat sample_id none
      (fields_of_line "/start") (envelope "/start") started started no_stores delivered start_key
      refl refl refl refl refl refl refl refl

-- An update that is no mapping is rejected by the adapter, and then raises.
list_update_raises :
    (handle_slice1_telegram_update_to_runtime_action strict bare_sources str_nat 5 sample_id array
      none 0).0
    ≡ err other_exception
unfolding handle_slice1_telegram_update_to_runtime_action handle_slice1_telegram_update
    handle_slice1_telegram_update_to_rendered_message extract_private_telegram_user_id
    extract_slice1_envelope_from_telegram_update extract_update
list_update_raises = refl
