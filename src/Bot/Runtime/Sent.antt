-- ===== src/Bot/Runtime/Sent.antt =====
-- Answers reach their chat.
use startprojectformillion.Base.{
  ℕ, String, false, Option, none, some, [], ◌∷◌, is_blank, ◌≡◌, refl, arith, ap, subst, ◌∙◌, inl,
  inr, Bool-cases,
}
use startprojectformillion.Shared.{Result, ok, err, ◌>>=◌}
use startprojectformillion.Shared.Validation.{pos, negsuc, validate_telegram_user_id}
use startprojectformillion.Shared.Json.{Json, int, object, validate_user_value}
use startprojectformillion.Runtime.Polling.{TelegramRuntimeActionKind, TelegramRuntimeAction}
use startprojectformillion.Bot.Codes.{TransportSafeResponse}
use startprojectformillion.Bot.Outbound.{
  TelegramOutboundPlan, map_transport_safe_to_outbound_plan,
  build_subscription_active_recovery_confirmation_plan,
}
use startprojectformillion.Bot.Outbound.Carried.{plan-cid, plan-fresh}
use startprojectformillion.Bot.Adapter.Sender.{member, party}
use startprojectformillion.Bot.Dispatcher.{Slice1Composition}
use startprojectformillion.Bot.Catalog.{
  ReplyMarkup, RenderedMessage, RenderedMessagePackage, text_of_plan, render_known,
  render_telegram_outbound_plan,
}
use startprojectformillion.Bot.Catalog.Texts.{catalog_text}
use startprojectformillion.Bot.Catalog.Copy.{CatalogSources}
use startprojectformillion.Bot.Catalog.Solid.{ValidUser, Rendered, render-Rendered}
use startprojectformillion.Bot.Runtime.{
  extract_private_telegram_user_id, extract_eligible_private_chat_id_from_telegram_like_update,
  render_response, send_action, may_send, handle_slice1_telegram_update,
  handle_slice1_telegram_update_to_rendered_message,
  handle_slice1_telegram_update_to_runtime_action,
}
use startprojectformillion.Bot.Runtime.Private.{eligible-IsPrivateChat}

-- The message of a plan, with the plan's identifier and flag.
abbrev FromPlan : TelegramOutboundPlan → RenderedMessage → Type 0
FromPlan plan m =
    (is_blank m.message_text ≡ false)
    × (m.correlation_id ≡ plan.correlation_id)
    × (m.replay_suppresses_outbound ≡ plan.replay_suppresses_outbound)

bind-keeps :
    (plan : TelegramOutboundPlan) (r : Result String) (f : String → RenderedMessage)
    → ((t : String)
        → ((f t).correlation_id ≡ plan.correlation_id)
          × ((f t).replay_suppresses_outbound ≡ plan.replay_suppresses_outbound))
    → Rendered (r >>= (λ t. ok (f t)))
    → (m : RenderedMessage) × ((r >>= (λ t. ok (f t)) ≡ ok m) × FromPlan plan m)
bind-keeps plan (err e) f keeps h = elim h [ ]
bind-keeps plan (ok t) f keeps h = (f t, (refl, (h, (keeps t).0, (keeps t).1)))

module _ (sources : CatalogSources) where
  known-FromPlan :
      (plan : TelegramOutboundPlan) (uid : Option ℕ) (stock : Option String)
      → Rendered (render_known sources plan uid stock)
      → (m : RenderedMessage) × ((render_known sources plan uid stock ≡ ok m) × FromPlan plan m)
  unfolding render_known
  known-FromPlan plan uid none h = (_, (refl, (h, refl, refl)))
  known-FromPlan plan uid (some stock) h =
      bind-keeps plan (text_of_plan sources plan stock uid) _ (λ t. (refl, refl)) h

  render-FromPlan :
      (plan : TelegramOutboundPlan) (uid : Option ℕ)
      → ValidUser uid
      → (m : RenderedMessage) × ((render_telegram_outbound_plan sources plan uid ≡ ok m)
          × FromPlan plan m)
  unfolding render_telegram_outbound_plan
  render-FromPlan plan uid valid =
      known-FromPlan plan uid (catalog_text plan.message_key)
        (render-Rendered sources plan uid valid)

  response-FromPlan :
      (response : TransportSafeResponse) (uid : Option ℕ)
      → ValidUser uid
      → (rendered : RenderedMessagePackage) × ((render_response sources response uid ≡ ok rendered)
          × FromPlan (map_transport_safe_to_outbound_plan response) rendered.primary)
  unfolding render_response
  response-FromPlan response uid valid =
      let (primary, (shown, from)) =
        render-FromPlan (map_transport_safe_to_outbound_plan response) uid valid in
      let (confirm, (again, _)) =
        render-FromPlan (build_subscription_active_recovery_confirmation_plan response) uid valid in
      elim (Bool-cases response.subscription_active_recovery_followup) [
        | inl follows ↦ (
          record { primary = primary; follow_up_messages = confirm ∷ [] },
          (ground (arith, follows, shown, again), from),
        )
        | inr alone ↦ (
          record { primary = primary; follow_up_messages = [] },
          (ground (arith, alone, shown), from),
        )
      ]

valid-again :
    (id : Json) (n : ℕ) → validate_user_value id ≡ ok n → validate_telegram_user_id (pos n) ≡ ok n
unfolding validate_user_value validate_telegram_user_id
valid-again (int (pos k)) n h = ground (arith, h)
valid-again (int (negsuc k)) n h = ground (arith, h)
valid-again id n h = ground (arith, h)

eligible-private :
    (update : Json) (n : ℕ)
    → extract_eligible_private_chat_id_from_telegram_like_update update ≡ some n
    → extract_private_telegram_user_id update ≡ ok (some n)
unfolding extract_eligible_private_chat_id_from_telegram_like_update
    extract_private_telegram_user_id
eligible-private (object update) n h = ap ok h
eligible-private update n h = ground (arith, h)

-- A message sent to the chat `n`, which is not blank, with this identifier.
unfoldable pub IsSentTo : ℕ → String → TelegramRuntimeAction ReplyMarkup → Type 0
IsSentTo n cid action =
    (action.kind ≡ TelegramRuntimeActionKind.send_message)
    × (action.chat_id ≡ some n)
    × (action.correlation_id ≡ cid)
    × ((line : String) × ((action.message_text ≡ some line) × (is_blank line ≡ false)))

send-IsSentTo :
    (rendered : RenderedMessagePackage) (n : ℕ)
    → is_blank rendered.primary.message_text ≡ false
    → IsSentTo n rendered.primary.correlation_id (send_action rendered (some n))
unfolding IsSentTo send_action
send-IsSentTo rendered n h = (
  ground (arith, h),
  ground (arith, h),
  ground (arith, h),
  (rendered.primary.message_text, (ground (arith, h), h)),
)

module _ {E : Type 0} (composition : Slice1Composition E) (sources : CatalogSources) where
  module _ (date_text : ℕ → String) (now : ℕ) (fresh : String) where
    rendered-action :
        (update : Json) (cid : Option String) (env env1 : E) (response : TransportSafeResponse)
        (n : ℕ) (rendered : RenderedMessagePackage)
        → handle_slice1_telegram_update composition sources date_text now fresh update cid env
          ≡ (ok response, env1)
        → extract_eligible_private_chat_id_from_telegram_like_update update ≡ some n
        → render_response sources response (some n) ≡ ok rendered
        → rendered.primary.replay_suppresses_outbound ≡ false
        → handle_slice1_telegram_update_to_runtime_action composition sources date_text now fresh
            update cid env
          ≡ (ok (send_action rendered (some n)), env1)
    unfolding handle_slice1_telegram_update_to_runtime_action may_send
        handle_slice1_telegram_update_to_rendered_message
    rendered-action update cid env env1 response n rendered answered eligible shown quiet =
        let user = eligible-private update n eligible in
        ground (arith, answered, eligible, user, shown, quiet)

    -- Where the update comes from a private chat whose id is the sender's, and the service has
    -- answered with a response that is no replay, then the runtime's action is to send: to that
    -- chat, a text that is not blank, with the response's correlation id. Neither the catalog nor
    -- the configuration makes it raise or fall silent.
    pub answer_is_sent :
        (update : Json) (cid : Option String) (env env1 : E) (response : TransportSafeResponse)
        (n : ℕ)
        → handle_slice1_telegram_update composition sources date_text now fresh update cid env
          ≡ (ok response, env1)
        → response.replay_suppresses_outbound ≡ false
        → extract_eligible_private_chat_id_from_telegram_like_update update ≡ some n
        → (action : TelegramRuntimeAction ReplyMarkup)
          × ((handle_slice1_telegram_update_to_runtime_action composition sources date_text now
                  fresh update cid env
                ≡ (ok action, env1))
              × IsSentTo n response.correlation_id action)
    answer_is_sent update cid env env1 response n answered fresh_answer eligible =
        let valid =
          valid-again (member "id" (party "chat" update)) n
            (eligible-IsPrivateChat update n eligible).1 in
        let (rendered, (shown, (solid, same, flag))) =
          response-FromPlan sources response (some n) valid in
        let sent = send-IsSentTo rendered n solid in
        (
          send_action rendered (some n),
          (
            rendered-action update cid env env1 response n rendered answered eligible shown
                (flag ∙ plan-fresh response fresh_answer),
            subst (λ (c : String). IsSentTo n c (send_action rendered (some n)))
                (same ∙ plan-cid response) sent,
          ),
        )
