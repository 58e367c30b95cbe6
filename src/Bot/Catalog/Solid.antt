-- ===== src/Bot/Catalog/Solid.antt =====
-- For a valid user a message is always rendered, and it is not blank.
use startprojectformillion.Base.{
  if◌then◌else◌, [], str_nat, ℕ, String, false, ◌&&◌, List, ◌++◌, Option, none, some, ◌∷◌, str_eq,
  string_append, is_blank, ◌≡◌, refl, arith, if-keeps, if-splits, solid-append,
}
use startprojectformillion.Shared.{Result, ok, err, IsOk, ◌>>=◌}
use startprojectformillion.Bot.Storefront.{
  StorefrontPublicConfig, is_falsy, load_storefront_public_config, load_checkout_reference_secret,
  build_checkout_url_with_reference,
}
use startprojectformillion.Billing.Reference.{
  Library, SignedCheckoutReference, create_signed_checkout_reference,
}
use startprojectformillion.Shared.Validation.{pos, validate_telegram_user_id}
use startprojectformillion.Bot.Support.{
  join_lines, line_of, build_support_menu_text, build_support_contact_text,
}
use startprojectformillion.Bot.Catalog.Stock.{SolidText, catalog-SolidText}
use startprojectformillion.Bot.Catalog.Copy.{
  CatalogSources, dated, link_text, secret_link, signed_link, first_url, or_empty,
  format_plans_copy, format_status_active_copy, format_link, format_buy_copy, format_renew_copy,
  format_fulfillment_success_notification_text, format_subscription_active_confirmation_text,
}
use startprojectformillion.Bot.Outbound.{
  OutboundMessageKey, TelegramOutboundPlan, message_key_value,
}
use startprojectformillion.Bot.Catalog.{
  RenderedMessage, render_known, action_keys_from_plan, keyboard_of_marker, is_active_key,
  text_of_plan, render_telegram_outbound_plan,
}
use startprojectformillion.Bot.Catalog.Texts.{catalog_text}

-- A user identifier is valid where it is there.
abbrev pub ValidUser : Option ℕ → Type 0
ValidUser none = Unit
ValidUser (some uid) = validate_telegram_user_id (pos uid) ≡ ok uid

-- There is a text, and it is not blank.
abbrev pub Solid : Result String → Type 0
Solid (err e) = ⊥
Solid (ok text_line) = is_blank text_line ≡ false

join-solid :
    (line next : String) (rest : List String)
    → is_blank line ≡ false
    → is_blank (join_lines (line ∷ (next ∷ rest))) ≡ false
unfolding join_lines
join-solid line next rest h = solid-append line (string_append "\n" (join_lines (next ∷ rest))) h

plans-solid : (cfg : StorefrontPublicConfig) → is_blank (format_plans_copy cfg) ≡ false
unfolding format_plans_copy is_blank
plans-solid cfg =
    let P : String → Type 0 = λ t. is_blank t ≡ false in
    let name = or_empty cfg.plan_name in
    let price = or_empty cfg.plan_price in
    if-keeps P (is_falsy cfg.plan_name)
      (if-keeps P (is_falsy cfg.plan_price) refl (
        solid-append (string_append "Current plan price: " price)
          "\nUse /buy to continue to checkout." (solid-append "Current plan price: " price refl)))
      (if-keeps P (is_falsy cfg.plan_price)
        (solid-append (string_append "Plan: " name)
          "\nCurrent price is shown at checkout.\nUse /buy to continue."
          (solid-append "Plan: " name refl))
        (solid-append
          (string_append (string_append (string_append "Plan: " name) "\nPrice: ") price)
          "\nUse /buy to continue to checkout."
          (solid-append (string_append (string_append "Plan: " name) "\nPrice: ") price (
            solid-append (string_append "Plan: " name) "\nPrice: "
              (solid-append "Plan: " name refl)))))

active-solid :
    (key : String) (ymd : Option String) → is_blank (format_status_active_copy key ymd) ≡ false
unfolding format_status_active_copy is_blank
active-solid key ymd =
    let P : String → Type 0 = λ t. is_blank t ≡ false in
    let until : String =
      if is_falsy ymd
      then "Your subscription is active."
      else string_append (string_append "Your subscription is active until " (or_empty ymd)) "." in
    let solid : P until = if-keeps P (is_falsy ymd) refl (
      solid-append (string_append "Your subscription is active until " (or_empty ymd)) "."
        (solid-append "Your subscription is active until " (or_empty ymd) refl)) in
    let not_ready : String = "\nAccess instructions are not ready yet. Try /get_access in a bit." in
    let ready : String = "\nAccess instructions are ready. Use /get_access." in
    if-keeps P
      (str_eq key (message_key_value OutboundMessageKey.subscription_active_access_not_ready))
      (solid-append until not_ready solid)
      (if-keeps P
        (str_eq key (message_key_value OutboundMessageKey.subscription_active_access_ready))
        (solid-append until ready solid) solid)

contact-solid : (cfg : StorefrontPublicConfig) → is_blank (build_support_contact_text cfg) ≡ false
unfolding build_support_contact_text is_blank
contact-solid cfg =
    if-keeps (λ (t : String). is_blank t ≡ false)
      (is_falsy cfg.support_handle && is_falsy cfg.support_url) refl
      (join-solid "Contact support" "" (line_of cfg.support_handle ++ line_of cfg.support_url) refl)

success-solid :
    (ymd : Option String) → is_blank (format_fulfillment_success_notification_text ymd) ≡ false
unfolding format_fulfillment_success_notification_text is_blank
success-solid ymd =
    join-solid "Payment received ✅" ""
      ("Your subscription is now active."
        ∷ (dated "Active until: " ymd
            ++ (""
                ∷ ("Next steps:"
                    ∷ ("/get_access - receive access instructions"
                        ∷ ("/menu - open the main menu" ∷ []))))))
      refl

confirmation-solid :
    (ymd : Option String) → is_blank (format_subscription_active_confirmation_text ymd) ≡ false
unfolding format_subscription_active_confirmation_text is_blank
confirmation-solid ymd =
    join-solid "Your subscription is active ✅" ""
      ("You are covered right now."
        ∷ (dated "Good through: " ymd
            ++ (""
                ∷ ("Next:" ∷ ("/get_access — open access delivery" ∷ ("/menu — main menu" ∷ []))))))
      refl

link-solid :
    (label : String) (url : Option String)
    → is_blank label ≡ false
    → is_blank (link_text label url) ≡ false
unfolding is_blank
link-solid label none h = refl
link-solid label (some url) h = solid-append label url h

bind-Solid :
    {A : Type 0} (r : Result A) (f : A → String)
    → IsOk r
    → ((a : A) → is_blank (f a) ≡ false)
    → Solid (r >>= (λ a. ok (f a)))
bind-Solid (err e) f is_ok h = is_ok
bind-Solid (ok a) f is_ok h = h a

create-IsOk :
    (lib : Library) (uid : ℕ) (internal : Option String) (secret : String) (now : ℕ)
    → validate_telegram_user_id (pos uid) ≡ ok uid
    → IsOk (create_signed_checkout_reference lib (pos uid) internal secret now)
unfolding create_signed_checkout_reference
create-IsOk lib uid internal secret now valid = ground (arith, valid)

signed-Solid :
    (sources : CatalogSources) (label base : String) (uid : ℕ) (secret : String)
    → validate_telegram_user_id (pos uid) ≡ ok uid
    → is_blank label ≡ false
    → Solid (signed_link sources label base uid secret)
unfolding signed_link is_blank
signed-Solid sources label base uid secret valid h =
    let internal = some (string_append "u" (str_nat uid)) in
    let url = λ (signed : SignedCheckoutReference).
      build_checkout_url_with_reference sources.urls base signed.reference_id
        signed.reference_proof in
    bind-Solid
      (create_signed_checkout_reference sources.references (pos uid) internal secret sources.now)
      (λ (signed : SignedCheckoutReference). link_text label (url signed))
      (create-IsOk sources.references uid internal secret sources.now valid)
      (λ (signed : SignedCheckoutReference). link-solid label (url signed) h)

secret-Solid :
    (sources : CatalogSources) (label base : String) (uid : ℕ) (secret : Option String)
    → validate_telegram_user_id (pos uid) ≡ ok uid
    → is_blank label ≡ false
    → Solid (secret_link sources label base uid secret)
unfolding is_blank
secret-Solid sources label base uid none valid h = refl
secret-Solid sources label base uid (some secret) valid h =
    signed-Solid sources label base uid secret valid h

link-Solid :
    (sources : CatalogSources) (label : String) (base : Option String) (uid : Option ℕ)
    → ValidUser uid
    → is_blank label ≡ false
    → Solid (format_link sources label base uid)
unfolding format_link is_blank
link-Solid sources label none uid valid h = refl
link-Solid sources label (some base) none valid h = refl
link-Solid sources label (some base) (some uid) valid h =
    secret-Solid sources label base uid (load_checkout_reference_secret sources.read) valid h

abbrev pub Rendered : Result RenderedMessage → Type 0
Rendered (err e) = ⊥
Rendered (ok message) = is_blank message.message_text ≡ false

module _ (sources : CatalogSources) where
  text-Solid :
      (plan : TelegramOutboundPlan) (stock : String) (uid : Option ℕ)
      → ValidUser uid
      → (str_eq plan.message_key
              (message_key_value OutboundMessageKey.subscription_active_confirmation)
            ≡ false
          → is_blank stock ≡ false)
      → Solid (text_of_plan sources plan stock uid)
  unfolding text_of_plan format_buy_copy format_renew_copy build_support_menu_text is_blank
      format_fulfillment_success_notification_text format_subscription_active_confirmation_text
  text-Solid plan stock uid valid solid =
      let key = plan.message_key in
      let cfg = load_storefront_public_config sources.urls sources.read in
      if-keeps Solid (str_eq key (message_key_value OutboundMessageKey.store_plans))
        (plans-solid cfg)
        (if-keeps Solid (str_eq key (message_key_value OutboundMessageKey.store_buy))
          (link-Solid sources "Open checkout: " cfg.checkout_url uid valid refl)
          (if-keeps Solid (str_eq key (message_key_value OutboundMessageKey.store_renew))
            (link-Solid sources "Renew subscription: " (first_url cfg.renewal_url cfg.checkout_url)
              uid valid refl)
            (if-keeps Solid (str_eq key (message_key_value OutboundMessageKey.support_menu)) refl (
              if-keeps Solid (str_eq key (message_key_value OutboundMessageKey.support_contact))
                (contact-solid cfg)
                (if-keeps Solid
                  (str_eq key
                    (message_key_value OutboundMessageKey.fulfillment_success_notification))
                  (success-solid plan.active_until_ymd)
                  (if-splits Solid
                    (str_eq key
                      (message_key_value OutboundMessageKey.subscription_active_confirmation))
                    (λ h. confirmation-solid plan.active_until_ymd)
                    (λ other.
                      if-keeps Solid (is_active_key key) (active-solid key plan.active_until_ymd)
                        (solid other))))))))

  bind-Rendered :
      (r : Result String) (f : String → RenderedMessage)
      → ((t : String) → (f t).message_text ≡ t)
      → Solid r
      → Rendered (r >>= (λ t. ok (f t)))
  bind-Rendered (err e) f keeps h = h
  bind-Rendered (ok t) f keeps h = rw (keeps t) h

  known-Rendered :
      (plan : TelegramOutboundPlan) (uid : Option ℕ) (stock : Option String)
      → ValidUser uid
      → (str_eq plan.message_key
              (message_key_value OutboundMessageKey.subscription_active_confirmation)
            ≡ false
          → SolidText stock)
      → Rendered (render_known sources plan uid stock)
  unfolding render_known is_blank
  known-Rendered plan uid none valid h = refl
  known-Rendered plan uid (some stock) valid h =
      bind-Rendered (text_of_plan sources plan stock uid)
        (λ (t : String). record {
          message_text = t;
          action_keys = action_keys_from_plan plan;
          correlation_id = plan.correlation_id;
          reply_markup = keyboard_of_marker plan.keyboard_marker;
          replay_suppresses_outbound = plan.replay_suppresses_outbound;
          uc01_idempotency_key = plan.uc01_idempotency_key;
        })
        (λ (t : String). refl) (text-Solid plan stock uid valid h)

  -- Whatever the plan and the configuration are, a message is rendered for a valid user, or for
  -- none, and it is more than white space.
  pub render-Rendered :
      (plan : TelegramOutboundPlan) (uid : Option ℕ)
      → ValidUser uid
      → Rendered (render_telegram_outbound_plan sources plan uid)
  unfolding render_telegram_outbound_plan
  render-Rendered plan uid valid =
      known-Rendered plan uid (catalog_text plan.message_key) valid
        (catalog-SolidText plan.message_key)
