-- ===== src/Bot/Runtime.antt =====
-- backend/src/app/bot_transport/service.py, runtime_facade.py and runtime_wrapper.py: from an update
-- to the action that answers it.
pub mod Private
pub mod Sent
use startprojectformillion.Base.{
  ℕ, String, Bool, true, false, not, Option, none, some, List, [], ◌∷◌, nat_beq, if◌then◌else◌,
  no_text, is_blank,
}
use startprojectformillion.Shared.{Exec, Result, ok, err, other_exception, ◌>>=◌}
use startprojectformillion.Shared.Json.{Json, Fields, object, get, validate_user_value}
use startprojectformillion.Runtime.Polling.{
  TelegramRuntimeActionKind, TelegramRuntimeFollowUpSend, TelegramRuntimeAction,
}
use startprojectformillion.Bot.Codes.{
  TransportResponseCategory, TransportErrorCode, TransportSafeResponse, error_code,
}
use startprojectformillion.Bot.Presentation.{plain_response}
use startprojectformillion.Bot.Adapter.{
  Extracted, extracted, adapter_rejected, is_private, extract_slice1_envelope_from_telegram_update,
}
use startprojectformillion.Bot.Delivery.{DeliveryStatus, OutboundDeliveryRecord}
use startprojectformillion.Bot.Dispatcher.{Slice1Composition, dispatch_slice1_transport}
use startprojectformillion.Bot.Outbound.{
  map_transport_safe_to_outbound_plan, build_subscription_active_recovery_confirmation_plan,
}
use startprojectformillion.Bot.Catalog.{
  ReplyMarkup, RenderedMessage, RenderedMessagePackage, render_telegram_outbound_plan,
}
use startprojectformillion.Bot.Catalog.Copy.{CatalogSources}

-- The identifier that the chat and the sender share.
unfoldable pub same_id : Result ℕ → Result ℕ → Option ℕ
same_id (ok chat_id) (ok user_id) = if nat_beq chat_id user_id then some chat_id else none
same_id (ok chat_id) (err e) = none
same_id (err e) user_id = none

-- Of a chat and a sender.
unfoldable pub chat_of : Json → Json → Option ℕ
unfolding get validate_user_value same_id
chat_of (object chat) (object from_user) =
    if not (is_private (get "type" chat))
    then none
    else same_id (validate_user_value (get "id" chat)) (validate_user_value (get "id" from_user))
chat_of _ _ = none

-- The message's private chat, where its identifier is also that of the sender.
unfoldable pub private_chat_of : Json → Option ℕ
unfolding get chat_of
private_chat_of (object message) = chat_of (get "chat" message) (get "from" message)
private_chat_of _ = none

-- `_extract_private_telegram_user_id`, which calls `get` of any update.
unfoldable pub extract_private_telegram_user_id : Json → Result (Option ℕ)
unfolding private_chat_of get
extract_private_telegram_user_id (object update) = ok (private_chat_of (get "message" update))
extract_private_telegram_user_id _ = err other_exception

unfoldable pub extract_eligible_private_chat_id_from_telegram_like_update : Json → Option ℕ
unfolding private_chat_of get
extract_eligible_private_chat_id_from_telegram_like_update (object update) =
    private_chat_of (get "message" update)
extract_eligible_private_chat_id_from_telegram_like_update _ = none

unfoldable pub adapter_reject_to_transport_safe : String → TransportSafeResponse
adapter_reject_to_transport_safe cid =
    plain_response TransportResponseCategory.error (error_code TransportErrorCode.invalid_input) cid

-- What a response is rendered to, with the message that follows where it is asked for.
unfoldable pub render_response :
    CatalogSources → TransportSafeResponse → Option ℕ → Result RenderedMessagePackage
unfolding map_transport_safe_to_outbound_plan render_telegram_outbound_plan
    build_subscription_active_recovery_confirmation_plan
render_response sources transport uid = do
  primary ←
      render_telegram_outbound_plan sources (map_transport_safe_to_outbound_plan transport) uid
  if transport.subscription_active_recovery_followup
      then (render_telegram_outbound_plan sources
            (build_subscription_active_recovery_confirmation_plan transport) uid
          >>= (λ confirm. ok (record { primary = primary; follow_up_messages = confirm ∷ [] })))
      else ok (record { primary = primary; follow_up_messages = [] })

abbrev pub noop_action : String → TelegramRuntimeAction ReplyMarkup
noop_action cid = record {
  kind = TelegramRuntimeActionKind.noop;
  correlation_id = cid;
  chat_id = none;
  message_text = none;
  action_keys = [];
  reply_markup = none;
  uc01_idempotency_key = none;
  follow_ups = [];
}

abbrev pub follow_ups_of : List RenderedMessage → List (TelegramRuntimeFollowUpSend ReplyMarkup)
follow_ups_of [] = []
follow_ups_of (fu ∷ fus) =
    record { message_text = fu.message_text; reply_markup = fu.reply_markup } ∷ follow_ups_of fus

-- The action for a message that may be sent.
unfoldable pub send_action : RenderedMessagePackage → Option ℕ → TelegramRuntimeAction ReplyMarkup
send_action rendered none = noop_action rendered.primary.correlation_id
send_action rendered (some target) =
    if is_blank rendered.primary.message_text
    then noop_action rendered.primary.correlation_id
    else record {
      kind = TelegramRuntimeActionKind.send_message;
      correlation_id = rendered.primary.correlation_id;
      chat_id = some target;
      message_text = some rendered.primary.message_text;
      action_keys = rendered.primary.action_keys;
      reply_markup = rendered.primary.reply_markup;
      uc01_idempotency_key = rendered.primary.uc01_idempotency_key;
      follow_ups = follow_ups_of rendered.follow_up_messages;
    }

-- Of a replay only a delivery that is still pending is sent again.
abbrev pub is_pending : Option OutboundDeliveryRecord → Bool
is_pending none = false
is_pending (some rec) = elim rec.status [
  | DeliveryStatus.pending ↦ true
  | DeliveryStatus.sent ↦ false
]

module _ {E : Type 0} (composition : Slice1Composition E) where
  -- Whether the rendered message may be sent, as far as a replay is concerned.
  unfoldable pub may_send : RenderedMessage → Exec E Bool
  may_send rendered env =
      if not rendered.replay_suppresses_outbound
      then (ok true, env)
      else (elim rendered.uc01_idempotency_key [
        | none ↦ (ok false, env)
        | some key ↦ if no_text key then (ok false, env) else (elim composition.outbound_delivery [
          | none ↦ (ok false, env)
          | some delivery_status ↦
              let (found, env1) = delivery_status key env in
              (found >>= (λ rec. ok (is_pending rec)), env1)
        ])
      ])

module _ {E : Type 0} (composition : Slice1Composition E) (sources : CatalogSources) where
  module _ (date_text : ℕ → String) (now : ℕ) (fresh : String) where
    unfoldable pub handle_slice1_telegram_update :
        Json → Option String → Exec E TransportSafeResponse
    unfolding extract_slice1_envelope_from_telegram_update adapter_reject_to_transport_safe
        dispatch_slice1_transport
    handle_slice1_telegram_update update correlation_id env =
        elim (extract_slice1_envelope_from_telegram_update fresh correlation_id update) [
          | adapter_rejected reason cid ↦ (ok (adapter_reject_to_transport_safe cid), env)
          | extracted envelope ↦ dispatch_slice1_transport composition date_text now envelope env
        ]

    unfoldable pub handle_slice1_telegram_update_to_rendered_message :
        Json → Option String → Exec E RenderedMessagePackage
    unfolding handle_slice1_telegram_update extract_private_telegram_user_id render_response
    handle_slice1_telegram_update_to_rendered_message update correlation_id env =
        let (transport, env1) = handle_slice1_telegram_update update correlation_id env in
        (
          transport >>= (λ response.
              extract_private_telegram_user_id update
              >>= (λ uid. render_response sources response uid)),
          env1,
        )

    unfoldable pub handle_slice1_telegram_update_to_runtime_action :
        Json → Option String → Exec E (TelegramRuntimeAction ReplyMarkup)
    unfolding handle_slice1_telegram_update_to_rendered_message may_send send_action
        extract_eligible_private_chat_id_from_telegram_like_update
    handle_slice1_telegram_update_to_runtime_action update correlation_id env =
        let (message, env1) =
          handle_slice1_telegram_update_to_rendered_message update correlation_id env in
        elim message [
          | err e ↦ (err e, env1)
          | ok rendered ↦
              let (allowed, env2) = may_send composition rendered.primary env1 in
              elim allowed [
                | err e ↦ (err e, env2)
                | ok false ↦ (ok (noop_action rendered.primary.correlation_id), env2)
                | ok true ↦ (
                  ok (
                      send_action rendered
                        (extract_eligible_private_chat_id_from_telegram_like_update update)),
                  env2,
                )
              ]
        ]
