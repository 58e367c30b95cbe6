-- ===== src/Bot/Catalog.antt =====
-- `render_telegram_outbound_plan` (backend/src/app/bot_transport/message_catalog.py).
pub mod Texts
pub mod Copy
pub mod Stock
pub mod Solid
use startprojectformillion.Base.{
  ℕ, String, Bool, true, false, ◌||◌, Option, none, some, List, [], ◌∷◌, if◌then◌else◌, str_eq,
  no_text,
}
use startprojectformillion.Shared.{Result, ok, err, ◌>>=◌}
use startprojectformillion.Bot.Outbound.{
  OutboundMessageKey, OutboundKeyboardMarker, TelegramOutboundPlan, message_key_value,
  keyboard_marker_value,
}
use startprojectformillion.Bot.Storefront.{load_storefront_public_config}
use startprojectformillion.Bot.Support.{build_support_menu_text, build_support_contact_text}
use startprojectformillion.Bot.Catalog.Texts.{text_service_unavailable, catalog_text}
use startprojectformillion.Bot.Catalog.Copy.{
  CatalogSources, format_fulfillment_success_notification_text,
  format_subscription_active_confirmation_text, format_plans_copy, format_status_active_copy,
  format_buy_copy, format_renew_copy,
}

-- The reply keyboard's rows.
pub record ReplyMarkup : Type 0 where
  pub keyboard : List (List String)
  pub resize_keyboard : Bool

-- A message without the ones that follow it.
pub record RenderedMessage : Type 0 where
  pub message_text : String
  pub action_keys : List String
  pub correlation_id : String
  pub reply_markup : Option ReplyMarkup
  pub replay_suppresses_outbound : Bool
  pub uc01_idempotency_key : Option String

-- `RenderedMessagePackage`: a follow-up message has no follow-ups of its own.
pub record RenderedMessagePackage : Type 0 where
  pub primary : RenderedMessage
  pub follow_up_messages : List RenderedMessage

unfoldable pub action_keys_from_plan : TelegramOutboundPlan → List String
action_keys_from_plan plan =
    if str_eq plan.message_key (message_key_value OutboundMessageKey.needs_onboarding)
    then (elim plan.next_action_key [ none ↦ [] | some key ↦ if no_text key then [] else key ∷ [] ])
    else []

abbrev pub markup : List (List String) → Option ReplyMarkup
markup rows = some (record { keyboard = rows; resize_keyboard = true })

-- The four keyboards, by their marker.
unfoldable pub keyboard_of_marker : String → Option ReplyMarkup
keyboard_of_marker marker =
    if str_eq marker (keyboard_marker_value OutboundKeyboardMarker.storefront_main)
    then markup (
        ("/menu" ∷ ("/plans" ∷ []))
        ∷ (("/buy" ∷ ("/my_subscription" ∷ []))
            ∷ (("/renew" ∷ ("/support" ∷ [])) ∷ (("/help" ∷ []) ∷ []))))
    else if str_eq marker (keyboard_marker_value OutboundKeyboardMarker.support_menu)
    then markup (("/support_contact" ∷ []) ∷ (("/menu" ∷ []) ∷ []))
    else if str_eq marker (keyboard_marker_value OutboundKeyboardMarker.support_contact)
    then markup (("/menu" ∷ []) ∷ [])
    else if str_eq marker (keyboard_marker_value OutboundKeyboardMarker.fulfillment_success)
    then markup (("/get_access" ∷ []) ∷ (("/menu" ∷ []) ∷ []))
    else none

abbrev pub is_active_key : String → Bool
is_active_key key =
    str_eq key (message_key_value OutboundMessageKey.subscription_active)
    || (str_eq key (message_key_value OutboundMessageKey.subscription_active_access_not_ready)
        || str_eq key (message_key_value OutboundMessageKey.subscription_active_access_ready))

module _ (sources : CatalogSources) where
  -- The text of a known key, which `stock` is where nothing else is put together.
  unfoldable pub text_of_plan : TelegramOutboundPlan → String → Option ℕ → Result String
  unfolding load_storefront_public_config format_plans_copy format_buy_copy format_renew_copy
      build_support_menu_text build_support_contact_text
      format_fulfillment_success_notification_text format_subscription_active_confirmation_text
      format_status_active_copy
  text_of_plan plan stock telegram_user_id =
      let key = plan.message_key in
      let cfg = load_storefront_public_config sources.urls sources.read in
      if str_eq key (message_key_value OutboundMessageKey.store_plans)
      then ok (format_plans_copy cfg)
      else if str_eq key (message_key_value OutboundMessageKey.store_buy)
      then format_buy_copy sources telegram_user_id
      else if str_eq key (message_key_value OutboundMessageKey.store_renew)
      then format_renew_copy sources telegram_user_id
      else if str_eq key (message_key_value OutboundMessageKey.support_menu)
      then ok build_support_menu_text
      else if str_eq key (message_key_value OutboundMessageKey.support_contact)
      then ok (build_support_contact_text cfg)
      else if str_eq key (message_key_value OutboundMessageKey.fulfillment_success_notification)
      then ok (format_fulfillment_success_notification_text plan.active_until_ymd)
      else if str_eq key (message_key_value OutboundMessageKey.subscription_active_confirmation)
      then ok (format_subscription_active_confirmation_text plan.active_until_ymd)
      else if is_active_key key
      then ok (format_status_active_copy key plan.active_until_ymd)
      else ok stock

  -- The message of a plan, by the stock text of its key.
  unfoldable pub render_known :
      TelegramOutboundPlan → Option ℕ → Option String → Result RenderedMessage
  unfolding keyboard_of_marker action_keys_from_plan text_of_plan
  render_known plan telegram_user_id none = ok (record {
    message_text = text_service_unavailable;
    action_keys = [];
    correlation_id = plan.correlation_id;
    reply_markup = none;
    replay_suppresses_outbound = plan.replay_suppresses_outbound;
    uc01_idempotency_key = plan.uc01_idempotency_key;
  })
  render_known plan telegram_user_id (some stock) =
      text_of_plan plan stock telegram_user_id >>= (λ message_text. ok (record {
        message_text = message_text;
        action_keys = action_keys_from_plan plan;
        correlation_id = plan.correlation_id;
        reply_markup = keyboard_of_marker plan.keyboard_marker;
        replay_suppresses_outbound = plan.replay_suppresses_outbound;
        uc01_idempotency_key = plan.uc01_idempotency_key;
      }))

  unfoldable pub render_telegram_outbound_plan :
      TelegramOutboundPlan → Option ℕ → Result RenderedMessage
  unfolding catalog_text render_known
  render_telegram_outbound_plan plan telegram_user_id =
      render_known plan telegram_user_id (catalog_text plan.message_key)
