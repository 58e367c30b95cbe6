-- ===== src/Bot/Outbound.antt =====
-- backend/src/app/bot_transport/outbound.py: from a response to the keys of the message catalog.
pub mod Known
pub mod Carried
use startprojectformillion.Base.{
  String, Bool, true, false, Option, none, some, if◌then◌else◌, str_eq,
}
use startprojectformillion.Bot.Codes.{
  TransportResponseCategory, TransportBootstrapCode, TransportStatusCode, TransportErrorCode,
  TransportHelpCode, TransportStorefrontCode, TransportSupportCode, TransportAccessResendCode,
  TransportNextActionHint, TransportSafeResponse, bootstrap_code, status_code, error_code,
  help_code, storefront_code, support_code, resend_code, next_action_hint_value,
}

pub data OutboundPlanCategory : Type 0 where
  success guidance error : OutboundPlanCategory

pub data OutboundMessageKey : Type 0 where
  identity_ready needs_onboarding inactive_or_not_eligible needs_review : OutboundMessageKey
  subscription_expired subscription_active : OutboundMessageKey
  subscription_active_access_not_ready subscription_active_access_ready : OutboundMessageKey
  invalid_input try_again_later service_unavailable slice1_help : OutboundMessageKey
  resend_access_accepted resend_access_not_enabled : OutboundMessageKey
  resend_access_not_eligible resend_access_cooldown resend_access_not_ready : OutboundMessageKey
  resend_access_temporarily_unavailable telegram_command_rate_limited : OutboundMessageKey
  store_menu store_plans store_buy store_success store_success_active : OutboundMessageKey
  store_renew support_menu support_contact fulfillment_success_notification : OutboundMessageKey
  subscription_active_confirmation : OutboundMessageKey

-- `.value` of a key
abbrev pub message_key_value : OutboundMessageKey → String
message_key_value OutboundMessageKey.identity_ready = "identity_ready"
message_key_value OutboundMessageKey.needs_onboarding = "needs_onboarding"
message_key_value OutboundMessageKey.inactive_or_not_eligible = "inactive_or_not_eligible"
message_key_value OutboundMessageKey.needs_review = "needs_review"
message_key_value OutboundMessageKey.subscription_expired = "subscription_expired"
message_key_value OutboundMessageKey.subscription_active = "subscription_active"
message_key_value OutboundMessageKey.subscription_active_access_not_ready =
    "subscription_active_access_not_ready"
message_key_value OutboundMessageKey.subscription_active_access_ready =
    "subscription_active_access_ready"
message_key_value OutboundMessageKey.invalid_input = "invalid_input"
message_key_value OutboundMessageKey.try_again_later = "try_again_later"
message_key_value OutboundMessageKey.service_unavailable = "service_unavailable"
message_key_value OutboundMessageKey.slice1_help = "slice1_help"
message_key_value OutboundMessageKey.resend_access_accepted = "resend_access_accepted"
message_key_value OutboundMessageKey.resend_access_not_enabled = "resend_access_not_enabled"
message_key_value OutboundMessageKey.resend_access_not_eligible = "resend_access_not_eligible"
message_key_value OutboundMessageKey.resend_access_cooldown = "resend_access_cooldown"
message_key_value OutboundMessageKey.resend_access_not_ready = "resend_access_not_ready"
message_key_value OutboundMessageKey.resend_access_temporarily_unavailable =
    "resend_access_temporarily_unavailable"
message_key_value OutboundMessageKey.telegram_command_rate_limited = "telegram_command_rate_limited"
message_key_value OutboundMessageKey.store_menu = "store_menu"
message_key_value OutboundMessageKey.store_plans = "store_plans"
message_key_value OutboundMessageKey.store_buy = "store_buy"
message_key_value OutboundMessageKey.store_success = "store_success"
message_key_value OutboundMessageKey.store_success_active = "store_success_active"
message_key_value OutboundMessageKey.store_renew = "store_renew"
message_key_value OutboundMessageKey.support_menu = "support_menu"
message_key_value OutboundMessageKey.support_contact = "support_contact"
message_key_value OutboundMessageKey.fulfillment_success_notification =
    "fulfillment_success_notification"
message_key_value OutboundMessageKey.subscription_active_confirmation =
    "subscription_active_confirmation"

pub data OutboundNextActionKey : Type 0 where
  complete_bootstrap : OutboundNextActionKey

abbrev pub next_action_key_value : OutboundNextActionKey → String
next_action_key_value OutboundNextActionKey.complete_bootstrap = "complete_bootstrap"

pub data OutboundKeyboardMarker : Type 0 where
  no_keyboard primary_onboarding storefront_main support_menu : OutboundKeyboardMarker
  support_contact fulfillment_success : OutboundKeyboardMarker

abbrev pub keyboard_marker_value : OutboundKeyboardMarker → String
keyboard_marker_value OutboundKeyboardMarker.no_keyboard = "none"
keyboard_marker_value OutboundKeyboardMarker.primary_onboarding = "primary_onboarding"
keyboard_marker_value OutboundKeyboardMarker.storefront_main = "storefront_main"
keyboard_marker_value OutboundKeyboardMarker.support_menu = "support_menu"
keyboard_marker_value OutboundKeyboardMarker.support_contact = "support_contact"
keyboard_marker_value OutboundKeyboardMarker.fulfillment_success = "fulfillment_success"

pub record TelegramOutboundPlan : Type 0 where
  pub category : OutboundPlanCategory
  pub message_key : String
  pub next_action_key : Option String
  pub keyboard_marker : String
  pub correlation_id : String
  pub replay_suppresses_outbound : Bool
  pub uc01_idempotency_key : Option String
  pub active_until_ymd : Option String

abbrev pub error_plan : OutboundMessageKey → String → TelegramOutboundPlan
error_plan key cid = record {
  category = OutboundPlanCategory.error;
  message_key = message_key_value key;
  next_action_key = none;
  keyboard_marker = keyboard_marker_value OutboundKeyboardMarker.no_keyboard;
  correlation_id = cid;
  replay_suppresses_outbound = false;
  uc01_idempotency_key = none;
  active_until_ymd = none;
}

abbrev pub service_unavailable_plan : String → TelegramOutboundPlan
service_unavailable_plan cid = error_plan OutboundMessageKey.service_unavailable cid

-- A plan of the category `SUCCESS`, with the date that it shows.
abbrev pub success_plan :
    OutboundMessageKey → OutboundKeyboardMarker → Option String → String → TelegramOutboundPlan
success_plan key marker active_until cid = record {
  category = OutboundPlanCategory.success;
  message_key = message_key_value key;
  next_action_key = none;
  keyboard_marker = keyboard_marker_value marker;
  correlation_id = cid;
  replay_suppresses_outbound = false;
  uc01_idempotency_key = none;
  active_until_ymd = active_until;
}

unfoldable pub build_fulfillment_success_notification_plan :
    String → Option String → TelegramOutboundPlan
build_fulfillment_success_notification_plan cid active_until_ymd =
    success_plan OutboundMessageKey.fulfillment_success_notification
      OutboundKeyboardMarker.fulfillment_success active_until_ymd cid

unfoldable pub build_subscription_active_recovery_confirmation_plan :
    TransportSafeResponse → TelegramOutboundPlan
build_subscription_active_recovery_confirmation_plan transport =
    success_plan OutboundMessageKey.subscription_active_confirmation
      OutboundKeyboardMarker.fulfillment_success transport.active_until_ymd transport.correlation_id

-- The branch of the category `SUCCESS`.
unfoldable pub success_outbound : TransportSafeResponse → TelegramOutboundPlan
success_outbound transport =
    let cid = transport.correlation_id in
    let code = transport.code in
    let until = transport.active_until_ymd in
    if str_eq code (bootstrap_code TransportBootstrapCode.identity_ready)
    then record (success_plan OutboundMessageKey.identity_ready
        OutboundKeyboardMarker.storefront_main until cid) {
          replay_suppresses_outbound = transport.replay_suppresses_outbound;
          uc01_idempotency_key = transport.uc01_idempotency_key;
        }
    else if str_eq code (help_code TransportHelpCode.slice1_help)
    then success_plan OutboundMessageKey.slice1_help OutboundKeyboardMarker.storefront_main until
        cid
    else if str_eq code (status_code TransportStatusCode.subscription_expired)
    then success_plan OutboundMessageKey.subscription_expired OutboundKeyboardMarker.no_keyboard
        until cid
    else if str_eq code (storefront_code TransportStorefrontCode.store_menu)
    then success_plan OutboundMessageKey.store_menu OutboundKeyboardMarker.storefront_main until cid
    else if str_eq code (storefront_code TransportStorefrontCode.store_plans)
    then success_plan OutboundMessageKey.store_plans OutboundKeyboardMarker.storefront_main until
        cid
    else if str_eq code (storefront_code TransportStorefrontCode.store_buy)
    then success_plan OutboundMessageKey.store_buy OutboundKeyboardMarker.storefront_main until cid
    else if str_eq code (storefront_code TransportStorefrontCode.store_success)
    then success_plan OutboundMessageKey.store_success OutboundKeyboardMarker.storefront_main none
        cid
    else if str_eq code (storefront_code TransportStorefrontCode.store_success_active)
    then success_plan OutboundMessageKey.store_success_active OutboundKeyboardMarker.storefront_main
        none cid
    else if str_eq code (storefront_code TransportStorefrontCode.store_renew)
    then success_plan OutboundMessageKey.store_renew OutboundKeyboardMarker.storefront_main none cid
    else if str_eq code (support_code TransportSupportCode.support_menu)
    then success_plan OutboundMessageKey.support_menu OutboundKeyboardMarker.support_menu none cid
    else if str_eq code (support_code TransportSupportCode.support_contact)
    then success_plan OutboundMessageKey.support_contact OutboundKeyboardMarker.support_contact none
        cid
    else if str_eq code (resend_code TransportAccessResendCode.resend_accepted)
    then success_plan OutboundMessageKey.resend_access_accepted OutboundKeyboardMarker.no_keyboard
        none cid
    else if str_eq code (resend_code TransportAccessResendCode.not_enabled)
    then success_plan OutboundMessageKey.resend_access_not_enabled
        OutboundKeyboardMarker.no_keyboard none cid
    else if str_eq code (resend_code TransportAccessResendCode.not_eligible)
    then success_plan OutboundMessageKey.resend_access_not_eligible
        OutboundKeyboardMarker.no_keyboard none cid
    else if str_eq code (resend_code TransportAccessResendCode.cooldown)
    then success_plan OutboundMessageKey.resend_access_cooldown OutboundKeyboardMarker.no_keyboard
        none cid
    else if str_eq code (resend_code TransportAccessResendCode.not_ready)
    then success_plan OutboundMessageKey.resend_access_not_ready OutboundKeyboardMarker.no_keyboard
        none cid
    else if str_eq code (resend_code TransportAccessResendCode.temporarily_unavailable)
    then success_plan OutboundMessageKey.resend_access_temporarily_unavailable
        OutboundKeyboardMarker.no_keyboard none cid
    else if str_eq code (status_code TransportStatusCode.inactive_or_not_eligible)
    then success_plan OutboundMessageKey.inactive_or_not_eligible OutboundKeyboardMarker.no_keyboard
        until cid
    else if str_eq code (status_code TransportStatusCode.needs_review)
    then success_plan OutboundMessageKey.needs_review OutboundKeyboardMarker.no_keyboard until cid
    else if str_eq code (status_code TransportStatusCode.subscription_active)
    then success_plan OutboundMessageKey.subscription_active OutboundKeyboardMarker.no_keyboard
        until cid
    else if str_eq code (status_code TransportStatusCode.subscription_active_access_not_ready)
    then success_plan OutboundMessageKey.subscription_active_access_not_ready
        OutboundKeyboardMarker.no_keyboard until cid
    else if str_eq code (status_code TransportStatusCode.subscription_active_access_ready)
    then success_plan OutboundMessageKey.subscription_active_access_ready
        OutboundKeyboardMarker.no_keyboard until cid
    else service_unavailable_plan cid

-- The branch of the category `GUIDANCE`.
unfoldable pub guidance_outbound : TransportSafeResponse → TelegramOutboundPlan
guidance_outbound transport =
    let cid = transport.correlation_id in
    let hinted : Bool = elim transport.next_action_hint [
      | none ↦ false
      | some hint ↦ str_eq hint (next_action_hint_value TransportNextActionHint.complete_bootstrap)
    ] in
    if str_eq transport.code (status_code TransportStatusCode.needs_onboarding)
    then record {
      category = OutboundPlanCategory.guidance;
      message_key = message_key_value OutboundMessageKey.needs_onboarding;
      next_action_key =
          if hinted
          then some (next_action_key_value OutboundNextActionKey.complete_bootstrap)
          else none;
      keyboard_marker = keyboard_marker_value (
          if hinted
          then OutboundKeyboardMarker.primary_onboarding
          else OutboundKeyboardMarker.no_keyboard);
      correlation_id = cid;
      replay_suppresses_outbound = false;
      uc01_idempotency_key = none;
      active_until_ymd = none;
    }
    else service_unavailable_plan cid

-- The branch of the category `ERROR`.
unfoldable pub error_outbound : TransportSafeResponse → TelegramOutboundPlan
error_outbound transport =
    let cid = transport.correlation_id in
    let code = transport.code in
    if str_eq code (error_code TransportErrorCode.invalid_input)
    then error_plan OutboundMessageKey.invalid_input cid
    else if str_eq code (error_code TransportErrorCode.try_again_later)
    then error_plan OutboundMessageKey.try_again_later cid
    else if str_eq code (error_code TransportErrorCode.service_unavailable)
    then error_plan OutboundMessageKey.service_unavailable cid
    else if str_eq code (error_code TransportErrorCode.telegram_command_rate_limited)
    then error_plan OutboundMessageKey.telegram_command_rate_limited cid
    else service_unavailable_plan cid

unfoldable pub map_transport_safe_to_outbound_plan : TransportSafeResponse → TelegramOutboundPlan
unfolding success_outbound guidance_outbound error_outbound
map_transport_safe_to_outbound_plan transport = elim transport.category [
  | TransportResponseCategory.success ↦ success_outbound transport
  | TransportResponseCategory.guidance ↦ guidance_outbound transport
  | TransportResponseCategory.error ↦ error_outbound transport
]
