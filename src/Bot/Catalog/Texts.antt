-- ===== src/Bot/Catalog/Texts.antt =====
-- The texts of backend/src/app/bot_transport/message_catalog.py (`_CATALOG_TEXT`).
use startprojectformillion.Base.{String, Option, none, some, if◌then◌else◌, str_eq}
use startprojectformillion.Bot.Outbound.{OutboundMessageKey, message_key_value}

abbrev pub text_service_unavailable : String
text_service_unavailable = "Service is temporarily unavailable. Please try again later."

-- The text of each key.
abbrev pub text_of_key : OutboundMessageKey → String
text_of_key OutboundMessageKey.identity_ready =
    "Welcome! Your chat is connected.\nUse /menu to browse plans and purchase options.\nUse /my_subscription anytime to check current status."
text_of_key OutboundMessageKey.needs_onboarding =
    "Send /start to register, then you can use /status or /help. The bot must know this chat before it can show access information."
text_of_key OutboundMessageKey.inactive_or_not_eligible =
    "No access is available for this account right now. If you are new here, send /start, then /status, or /help. This build does not grant new access and does not send files."
text_of_key OutboundMessageKey.needs_review =
    "Access is temporarily restricted while a review is in place. You can use /status or /help. This build does not send files."
text_of_key OutboundMessageKey.subscription_expired =
    "Your subscription has expired.\nUse /renew to continue and then check /my_subscription again."
text_of_key OutboundMessageKey.subscription_active =
    "Your subscription is active.\nUse /my_subscription to check the active-until date."
text_of_key OutboundMessageKey.subscription_active_access_not_ready =
    "Your subscription is active, but access instructions are not ready yet. Try /get_access in a bit."
text_of_key OutboundMessageKey.subscription_active_access_ready =
    "Your subscription is active and access instructions are ready. Use /get_access to receive them safely."
text_of_key OutboundMessageKey.invalid_input = "That input is not valid. Try again."
text_of_key OutboundMessageKey.try_again_later =
    "Something went wrong. Please try again in a moment."
text_of_key OutboundMessageKey.service_unavailable = text_service_unavailable
text_of_key OutboundMessageKey.slice1_help =
    "Available commands:\n/start - connect this chat\n/menu - main menu\n/plans - available plans\n/buy - open checkout\n/checkout - alias of /buy\n/success - post-payment next steps\n/my_subscription - subscription status (same as /status)\n/status - subscription status\n/renew - renewal checkout link\n/support - help and FAQ\n/support_contact - contact options\n/resend_access - resend access instructions when eligible\n/get_access - alias of /resend_access\n/help - this help"
text_of_key OutboundMessageKey.resend_access_accepted =
    "Access instructions request accepted. If safe delivery is available, instructions will be resent."
text_of_key OutboundMessageKey.resend_access_not_enabled = "This feature is not available yet."
text_of_key OutboundMessageKey.resend_access_not_eligible =
    "Access instructions cannot be resent for this account right now.\nIf your subscription is inactive or expired, use /renew."
text_of_key OutboundMessageKey.resend_access_cooldown =
    "Please wait a moment before requesting access instructions again."
text_of_key OutboundMessageKey.resend_access_not_ready =
    "Access instructions are not ready to resend yet. Please try again later."
text_of_key OutboundMessageKey.resend_access_temporarily_unavailable =
    "Access instructions resend is temporarily unavailable. Please try again later."
text_of_key OutboundMessageKey.telegram_command_rate_limited =
    "Too many requests. Please try again later."
text_of_key OutboundMessageKey.store_menu =
    "Main menu:\n/plans - view plans\n/buy - open checkout\n/my_subscription - check subscription status\n/renew - renewal options\n/support - help and FAQ\n/support_contact - contact support"
text_of_key OutboundMessageKey.store_plans =
    "Current price is shown at checkout. Use /buy to continue."
text_of_key OutboundMessageKey.store_buy = "Checkout is not configured yet, contact support."
text_of_key OutboundMessageKey.store_success =
    "Payment step completed and received.\nActivation may take a moment.\nUse /my_subscription to check status, then /get_access when subscription is active."
text_of_key OutboundMessageKey.store_success_active =
    "Subscription is active.\nUse /my_subscription for current status and /get_access to receive access instructions."
text_of_key OutboundMessageKey.store_renew = "Checkout is not configured yet, contact support."
text_of_key OutboundMessageKey.support_menu = "Support menu placeholder."
text_of_key OutboundMessageKey.support_contact = "Support contact placeholder."
text_of_key OutboundMessageKey.fulfillment_success_notification = "Fulfillment success placeholder."
text_of_key OutboundMessageKey.subscription_active_confirmation = ""

-- `_CATALOG_TEXT.get(key)`: `none` is a key that is not among `_KNOWN_KEYS`.
unfoldable pub catalog_text : String → Option String
catalog_text key =
    if str_eq key (message_key_value OutboundMessageKey.identity_ready)
    then some (text_of_key OutboundMessageKey.identity_ready)
    else if str_eq key (message_key_value OutboundMessageKey.needs_onboarding)
    then some (text_of_key OutboundMessageKey.needs_onboarding)
    else if str_eq key (message_key_value OutboundMessageKey.inactive_or_not_eligible)
    then some (text_of_key OutboundMessageKey.inactive_or_not_eligible)
    else if str_eq key (message_key_value OutboundMessageKey.needs_review)
    then some (text_of_key OutboundMessageKey.needs_review)
    else if str_eq key (message_key_value OutboundMessageKey.subscription_expired)
    then some (text_of_key OutboundMessageKey.subscription_expired)
    else if str_eq key (message_key_value OutboundMessageKey.subscription_active)
    then some (text_of_key OutboundMessageKey.subscription_active)
    else if str_eq key (message_key_value OutboundMessageKey.subscription_active_access_not_ready)
    then some (text_of_key OutboundMessageKey.subscription_active_access_not_ready)
    else if str_eq key (message_key_value OutboundMessageKey.subscription_active_access_ready)
    then some (text_of_key OutboundMessageKey.subscription_active_access_ready)
    else if str_eq key (message_key_value OutboundMessageKey.slice1_help)
    then some (text_of_key OutboundMessageKey.slice1_help)
    else if str_eq key (message_key_value OutboundMessageKey.invalid_input)
    then some (text_of_key OutboundMessageKey.invalid_input)
    else if str_eq key (message_key_value OutboundMessageKey.try_again_later)
    then some (text_of_key OutboundMessageKey.try_again_later)
    else if str_eq key (message_key_value OutboundMessageKey.service_unavailable)
    then some (text_of_key OutboundMessageKey.service_unavailable)
    else if str_eq key (message_key_value OutboundMessageKey.telegram_command_rate_limited)
    then some (text_of_key OutboundMessageKey.telegram_command_rate_limited)
    else if str_eq key (message_key_value OutboundMessageKey.resend_access_accepted)
    then some (text_of_key OutboundMessageKey.resend_access_accepted)
    else if str_eq key (message_key_value OutboundMessageKey.resend_access_not_enabled)
    then some (text_of_key OutboundMessageKey.resend_access_not_enabled)
    else if str_eq key (message_key_value OutboundMessageKey.resend_access_not_eligible)
    then some (text_of_key OutboundMessageKey.resend_access_not_eligible)
    else if str_eq key (message_key_value OutboundMessageKey.resend_access_cooldown)
    then some (text_of_key OutboundMessageKey.resend_access_cooldown)
    else if str_eq key (message_key_value OutboundMessageKey.resend_access_not_ready)
    then some (text_of_key OutboundMessageKey.resend_access_not_ready)
    else if str_eq key (message_key_value OutboundMessageKey.resend_access_temporarily_unavailable)
    then some (text_of_key OutboundMessageKey.resend_access_temporarily_unavailable)
    else if str_eq key (message_key_value OutboundMessageKey.store_menu)
    then some (text_of_key OutboundMessageKey.store_menu)
    else if str_eq key (message_key_value OutboundMessageKey.store_success)
    then some (text_of_key OutboundMessageKey.store_success)
    else if str_eq key (message_key_value OutboundMessageKey.store_success_active)
    then some (text_of_key OutboundMessageKey.store_success_active)
    else if str_eq key (message_key_value OutboundMessageKey.store_plans)
    then some (text_of_key OutboundMessageKey.store_plans)
    else if str_eq key (message_key_value OutboundMessageKey.store_buy)
    then some (text_of_key OutboundMessageKey.store_buy)
    else if str_eq key (message_key_value OutboundMessageKey.store_renew)
    then some (text_of_key OutboundMessageKey.store_renew)
    else if str_eq key (message_key_value OutboundMessageKey.support_menu)
    then some (text_of_key OutboundMessageKey.support_menu)
    else if str_eq key (message_key_value OutboundMessageKey.support_contact)
    then some (text_of_key OutboundMessageKey.support_contact)
    else if str_eq key (message_key_value OutboundMessageKey.fulfillment_success_notification)
    then some (text_of_key OutboundMessageKey.fulfillment_success_notification)
    else if str_eq key (message_key_value OutboundMessageKey.subscription_active_confirmation)
    then some (text_of_key OutboundMessageKey.subscription_active_confirmation)
    else none
