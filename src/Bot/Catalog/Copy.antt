-- ===== src/Bot/Catalog/Copy.antt =====
-- The texts that `_format_…_copy` of backend/src/app/bot_transport/message_catalog.py puts together.
use startprojectformillion.Base.{
  ℕ, String, Option, none, some, List, [], ◌∷◌, ◌++◌, if◌then◌else◌, str_eq, str_nat, string_append,
  no_text,
}
use startprojectformillion.Shared.{Result, ok, ◌>>=◌}
use startprojectformillion.Shared.Validation.{pos}
use startprojectformillion.Billing.Reference.{Library, create_signed_checkout_reference}
use startprojectformillion.Bot.Outbound.{OutboundMessageKey, message_key_value}
use startprojectformillion.Bot.Storefront.{
  UrlLib, StorefrontPublicConfig, is_falsy, load_storefront_public_config,
  load_checkout_reference_secret, build_checkout_url_with_reference,
}
use startprojectformillion.Bot.Support.{join_lines}

-- The environment's variables, the libraries, and what the clock shows when a reference is signed.
pub record CatalogSources : Type 0 where
  pub read : String → Option String
  pub urls : UrlLib
  pub references : Library
  pub now : ℕ

abbrev pub not_configured : String
not_configured = "Checkout is not configured yet, contact support."

-- The lines of a date, where there is one.
abbrev pub dated : String → Option String → List String
dated label none = []
dated label (some ymd) = if no_text ymd then [] else "" ∷ (string_append label ymd ∷ [])

unfoldable pub format_fulfillment_success_notification_text : Option String → String
unfolding join_lines
format_fulfillment_success_notification_text active_until_ymd = join_lines (
    ("Payment received ✅" ∷ ("" ∷ ("Your subscription is now active." ∷ [])))
    ++ (dated "Active until: " active_until_ymd
        ++ (""
            ∷ ("Next steps:"
                ∷ ("/get_access - receive access instructions"
                    ∷ ("/menu - open the main menu" ∷ []))))))

unfoldable pub format_subscription_active_confirmation_text : Option String → String
unfolding join_lines
format_subscription_active_confirmation_text active_until_ymd = join_lines (
    ("Your subscription is active ✅" ∷ ("" ∷ ("You are covered right now." ∷ [])))
    ++ (dated "Good through: " active_until_ymd
        ++ ("" ∷ ("Next:" ∷ ("/get_access — open access delivery" ∷ ("/menu — main menu" ∷ []))))))

-- The text itself where it is there and not empty.
abbrev pub or_empty : Option String → String
or_empty none = ""
or_empty (some s) = s

unfoldable pub format_plans_copy : StorefrontPublicConfig → String
format_plans_copy cfg =
    let name = or_empty cfg.plan_name in
    let price = or_empty cfg.plan_price in
    if is_falsy cfg.plan_name
    then (if is_falsy cfg.plan_price
        then "Current price is shown at checkout. Use /buy to continue."
        else string_append (string_append "Current plan price: " price)
            "\nUse /buy to continue to checkout.")
    else if is_falsy cfg.plan_price
    then string_append (string_append "Plan: " name)
        "\nCurrent price is shown at checkout.\nUse /buy to continue."
    else string_append
        (string_append (string_append (string_append "Plan: " name) "\nPrice: ") price)
        "\nUse /buy to continue to checkout."

unfoldable pub format_status_active_copy : String → Option String → String
format_status_active_copy key active_until_ymd =
    let until : String =
      if is_falsy active_until_ymd
      then "Your subscription is active."
      else string_append
          (string_append "Your subscription is active until " (or_empty active_until_ymd)) "." in
    if str_eq key (message_key_value OutboundMessageKey.subscription_active_access_not_ready)
    then string_append until "\nAccess instructions are not ready yet. Try /get_access in a bit."
    else if str_eq key (message_key_value OutboundMessageKey.subscription_active_access_ready)
    then string_append until "\nAccess instructions are ready. Use /get_access."
    else until

-- `cfg.renewal_url or cfg.checkout_url`
abbrev pub first_url : Option String → Option String → Option String
first_url renewal checkout = if is_falsy renewal then checkout else renewal

-- The link, or what is said where there is none.
abbrev pub link_text : String → Option String → String
link_text label none = not_configured
link_text label (some url) = string_append label url

module _ (sources : CatalogSources) where
  -- The link with a fresh signed reference, behind `label`.
  unfoldable pub signed_link : String → String → ℕ → String → Result String
  unfolding build_checkout_url_with_reference create_signed_checkout_reference str_nat
  signed_link label base uid secret = do
    signed ←
        create_signed_checkout_reference sources.references (pos uid)
          (some (string_append "u" (str_nat uid))) secret sources.now
    ok (
        link_text label (
          build_checkout_url_with_reference sources.urls base signed.reference_id
            signed.reference_proof))

  abbrev pub secret_link : String → String → ℕ → Option String → Result String
  secret_link label base uid none = ok not_configured
  secret_link label base uid (some secret) = signed_link label base uid secret

  -- What must be there for it.
  unfoldable pub format_link : String → Option String → Option ℕ → Result String
  unfolding load_checkout_reference_secret signed_link
  format_link label none telegram_user_id = ok not_configured
  format_link label (some base) none = ok not_configured
  format_link label (some base) (some uid) =
      secret_link label base uid (load_checkout_reference_secret sources.read)

  unfoldable pub format_buy_copy : Option ℕ → Result String
  unfolding load_storefront_public_config format_link
  format_buy_copy telegram_user_id =
      format_link "Open checkout: "
        (load_storefront_public_config sources.urls sources.read).checkout_url telegram_user_id

  unfoldable pub format_renew_copy : Option ℕ → Result String
  unfolding load_storefront_public_config format_link
  format_renew_copy telegram_user_id =
      let cfg = load_storefront_public_config sources.urls sources.read in
      format_link "Renew subscription: " (first_url cfg.renewal_url cfg.checkout_url)
        telegram_user_id
