-- ===== src/Bot/Adapter.antt =====
-- backend/src/app/bot_transport/telegram_adapter.py. `new_correlation_id()` is the argument `fresh`.
pub mod Sender
use Prim.Native.String.{count}
use startprojectformillion.Base.{
  ℕ, String, Bool, true, false, not, ◌||◌, Option, none, some, List, [], ◌∷◌, ltb, if◌then◌else◌,
  no_text, strip, starts_with, str_eq,
}
use startprojectformillion.Shared.{Result, ok, err, validation_error}
use startprojectformillion.Shared.Correlation.{is_valid_correlation_id}
use startprojectformillion.Shared.Validation.{ℤ, pos, validate_telegram_update_id}
use startprojectformillion.Shared.Json.{
  Json, Fields, null, int, str, object, get, validate_user_value,
}
use startprojectformillion.Bot.Normalized.{TransportIncomingEnvelope}

abbrev pub max_message_text_len : ℕ
max_message_text_len = 512

abbrev pub slice1_forbidden_update_keys : List String
slice1_forbidden_update_keys =
    "callback_query" ∷ "inline_query" ∷ "chosen_inline_result" ∷ "shipping_query"
    ∷ "pre_checkout_query" ∷ "poll" ∷ "poll_answer" ∷ "my_chat_member" ∷ "chat_member"
    ∷ "chat_join_request" ∷ "edited_message" ∷ "channel_post" ∷ "edited_channel_post" ∷ []

pub data TelegramAdapterRejectReason : Type 0 where
  invalid_update_container unsupported_update_surface : TelegramAdapterRejectReason
  missing_message missing_update_id non_private_chat missing_user_id : TelegramAdapterRejectReason
  non_text_message text_too_long not_a_command invalid_ids : TelegramAdapterRejectReason
  invalid_correlation_id : TelegramAdapterRejectReason

-- `TransportIncomingEnvelope | TelegramAdapterRejected`; a rejection carries the identifier.
pub data Extracted : Type 0 where
  extracted : TransportIncomingEnvelope → Extracted
  adapter_rejected : TelegramAdapterRejectReason → String → Extracted

abbrev pub is_null : Json → Bool
is_null null = true
is_null _ = false

abbrev pub is_private : Json → Bool
is_private (str s) = str_eq s "private"
is_private _ = false

-- A forbidden key whose value is not `None`.
unfoldable pub has_forbidden : List String → Fields → Bool
unfolding get
has_forbidden [] update = false
has_forbidden (key ∷ keys) update = not (is_null (get key update)) || has_forbidden keys update

unfoldable pub validate_update_value : Json → Result ℕ
unfolding validate_telegram_update_id
validate_update_value (int z) = validate_telegram_update_id z
validate_update_value _ = err validation_error

unfoldable pub non_empty_str : Json → Option String
unfolding strip
non_empty_str (str value) = let s = strip value in if no_text s then none else some s
non_empty_str _ = none

-- From the text on.
unfoldable pub extract_text : String → ℕ → ℕ → Json → Extracted
unfolding non_empty_str
extract_text cid update_id uid value = elim (non_empty_str value) [
  | none ↦ adapter_rejected TelegramAdapterRejectReason.non_text_message cid
  | some text_line ↦
      if ltb max_message_text_len (count text_line)
      then adapter_rejected TelegramAdapterRejectReason.text_too_long cid
      else if not (starts_with "/" text_line)
      then adapter_rejected TelegramAdapterRejectReason.not_a_command cid
      else extracted (record {
        telegram_user_id = pos uid;
        correlation_id = cid;
        telegram_update_id = some (pos update_id);
        normalized_command_text = some text_line;
      })
]

unfoldable pub extract_ids : String → ℕ → Result ℕ → Json → Extracted
unfolding extract_text
extract_ids cid update_id (err e) value =
    adapter_rejected TelegramAdapterRejectReason.invalid_ids cid
extract_ids cid update_id (ok uid) value = extract_text cid update_id uid value

-- From the sender on.
unfoldable pub extract_from : String → ℕ → Json → Json → Extracted
unfolding get validate_user_value extract_ids
extract_from cid update_id (object from_user) value =
    extract_ids cid update_id (validate_user_value (get "id" from_user)) value
extract_from cid update_id _ value =
    adapter_rejected TelegramAdapterRejectReason.missing_user_id cid

-- From the chat on.
unfoldable pub extract_chat : String → ℕ → Json → Json → Json → Extracted
unfolding get extract_from
extract_chat cid update_id (object chat) from_user value =
    if not (is_private (get "type" chat))
    then adapter_rejected TelegramAdapterRejectReason.non_private_chat cid
    else extract_from cid update_id from_user value
extract_chat cid update_id _ from_user value =
    adapter_rejected TelegramAdapterRejectReason.non_private_chat cid

-- From the message on.
unfoldable pub extract_message : String → ℕ → Json → Extracted
unfolding get extract_chat
extract_message cid update_id (object message) =
    extract_chat cid update_id (get "chat" message) (get "from" message) (get "text" message)
extract_message cid update_id _ = adapter_rejected TelegramAdapterRejectReason.missing_message cid

-- With the identifier resolved.
unfoldable pub extract_update : String → Json → Extracted
unfolding has_forbidden get validate_update_value extract_message
extract_update cid (object update) =
    if has_forbidden slice1_forbidden_update_keys update
    then adapter_rejected TelegramAdapterRejectReason.unsupported_update_surface cid
    else if is_null (get "update_id" update)
    then adapter_rejected TelegramAdapterRejectReason.missing_update_id cid
    else (elim (validate_update_value (get "update_id" update)) [
      | err e ↦ adapter_rejected TelegramAdapterRejectReason.invalid_ids cid
      | ok update_id ↦ extract_message cid update_id (get "message" update)
    ])
extract_update cid _ = adapter_rejected TelegramAdapterRejectReason.invalid_update_container cid

unfoldable pub extract_slice1_envelope_from_telegram_update :
    String → Option String → Json → Extracted
unfolding is_valid_correlation_id extract_update
extract_slice1_envelope_from_telegram_update fresh none update = extract_update fresh update
extract_slice1_envelope_from_telegram_update fresh (some cid) update =
    if is_valid_correlation_id cid
    then extract_update cid update
    else adapter_rejected TelegramAdapterRejectReason.invalid_correlation_id fresh
