-- ===== src/Bot/Catalog/Stock.antt =====
-- The stock texts are not blank.
use startprojectformillion.Base.{
  String, true, false, Option, none, some, str_eq, is_blank, ◌≡◌, refl, arith, if-keeps, if-splits,
}
use startprojectformillion.Bot.Outbound.{OutboundMessageKey, message_key_value}
use startprojectformillion.Bot.Catalog.Texts.{catalog_text}

abbrev pub SolidText : Option String → Type 0
SolidText none = Unit
SolidText (some text_line) = is_blank text_line ≡ false

-- Each stock text but that of the confirmation, which is never shown, is more than white space.
pub catalog-SolidText :
    (key : String)
    → str_eq key (message_key_value OutboundMessageKey.subscription_active_confirmation) ≡ false
    → SolidText (catalog_text key)
unfolding catalog_text is_blank
catalog-SolidText key other =
    (if-keeps SolidText (str_eq key (message_key_value OutboundMessageKey.identity_ready)) refl (
      if-keeps SolidText (str_eq key (message_key_value OutboundMessageKey.needs_onboarding)) refl (
        if-keeps SolidText
          (str_eq key (message_key_value OutboundMessageKey.inactive_or_not_eligible)) refl
          (if-keeps SolidText (str_eq key (message_key_value OutboundMessageKey.needs_review)) refl
            (if-keeps SolidText
              (str_eq key (message_key_value OutboundMessageKey.subscription_expired)) refl
              (if-keeps SolidText
                (str_eq key (message_key_value OutboundMessageKey.subscription_active)) refl
                (if-keeps SolidText
                  (str_eq key
                    (message_key_value OutboundMessageKey.subscription_active_access_not_ready))
                  refl
                  (if-keeps SolidText
                    (str_eq key
                      (message_key_value OutboundMessageKey.subscription_active_access_ready))
                    refl
                    (if-keeps SolidText
                      (str_eq key (message_key_value OutboundMessageKey.slice1_help)) refl
                      (if-keeps SolidText
                        (str_eq key (message_key_value OutboundMessageKey.invalid_input)) refl
                        (if-keeps SolidText
                          (str_eq key (message_key_value OutboundMessageKey.try_again_later)) refl
                          (if-keeps SolidText
                            (str_eq key (message_key_value OutboundMessageKey.service_unavailable))
                            refl
                            (if-keeps SolidText
                              (str_eq key (
                                message_key_value OutboundMessageKey.telegram_command_rate_limited))
                              refl
                              (if-keeps SolidText
                                (str_eq key
                                  (message_key_value OutboundMessageKey.resend_access_accepted))
                                refl
                                (if-keeps SolidText
                                  (str_eq key (
                                    message_key_value OutboundMessageKey.resend_access_not_enabled))
                                  refl
                                  (if-keeps SolidText
                                    (str_eq key (
                                      message_key_value
                                        OutboundMessageKey.resend_access_not_eligible))
                                    refl
                                    (if-keeps SolidText
                                      (str_eq key (
                                        message_key_value
                                          OutboundMessageKey.resend_access_cooldown))
                                      refl
                                      (if-keeps SolidText
                                        (str_eq key (
                                          message_key_value
                                            OutboundMessageKey.resend_access_not_ready))
                                        refl
                                        (if-keeps SolidText
                                          (str_eq key (
                                            message_key_value
                                              OutboundMessageKey.resend_access_temporarily_unavailable))
                                          refl
                                          (if-keeps SolidText
                                            (str_eq key
                                              (message_key_value OutboundMessageKey.store_menu))
                                            refl
                                            (if-keeps SolidText
                                              (str_eq key (
                                                message_key_value OutboundMessageKey.store_success))
                                              refl
                                              (if-keeps SolidText
                                                (str_eq key (
                                                  message_key_value
                                                    OutboundMessageKey.store_success_active))
                                                refl
                                                (if-keeps SolidText
                                                  (str_eq key (
                                                    message_key_value
                                                      OutboundMessageKey.store_plans))
                                                  refl
                                                  (if-keeps SolidText
                                                    (str_eq key (
                                                      message_key_value
                                                        OutboundMessageKey.store_buy))
                                                    refl
                                                    (if-keeps SolidText
                                                      (str_eq key (
                                                        message_key_value
                                                          OutboundMessageKey.store_renew))
                                                      refl
                                                      (if-keeps SolidText
                                                        (str_eq key (
                                                          message_key_value
                                                            OutboundMessageKey.support_menu))
                                                        refl
                                                        (if-keeps SolidText
                                                          (str_eq key (
                                                            message_key_value
                                                            OutboundMessageKey.support_contact))
                                                          refl
                                                          (if-keeps SolidText
                                                            (str_eq key (
                                                            message_key_value
                                                            OutboundMessageKey.fulfillment_success_notification))
                                                            refl
                                                            (if-splits SolidText
                                                            (str_eq key (
                                                            message_key_value
                                                            OutboundMessageKey.subscription_active_confirmation))
                                                            (λ (h : str_eq key (
                                                            message_key_value
                                                            OutboundMessageKey.subscription_active_confirmation)
                                                            ≡ true).
                                                            ground (arith, h, other))
                                                            (λ h. tt))))))))))))))))))))))))))))))
