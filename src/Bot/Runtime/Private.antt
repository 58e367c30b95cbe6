-- ===== src/Bot/Runtime/Private.antt =====
-- To whom an answer goes.
use startprojectformillion.Base.{ℕ, String, true, Option, none, some, ◌≡◌, arith, inl, inr}
use startprojectformillion.Shared.{Result, ok, err, Result-cases}
use startprojectformillion.Shared.Validation.{pos}
use startprojectformillion.Shared.Json.{Json, object, get, validate_user_value}
use startprojectformillion.Runtime.Polling.{TelegramRuntimeAction}
use startprojectformillion.Bot.Normalized.{TransportIncomingEnvelope}
use startprojectformillion.Bot.Adapter.{
  extracted, is_private, extract_slice1_envelope_from_telegram_update,
}
use startprojectformillion.Bot.Adapter.Sender.{member, party, HasId, extract-IsUserOf}
use startprojectformillion.Bot.Dispatcher.{Slice1Composition}
use startprojectformillion.Bot.Catalog.{ReplyMarkup, RenderedMessagePackage}
use startprojectformillion.Bot.Catalog.Copy.{CatalogSources}
use startprojectformillion.Bot.Runtime.{
  same_id, chat_of, private_chat_of, extract_eligible_private_chat_id_from_telegram_like_update,
  send_action, may_send, handle_slice1_telegram_update_to_rendered_message,
  handle_slice1_telegram_update_to_runtime_action,
}

-- The chat `n` of the update is private, and its sender is `n` too.
abbrev pub IsPrivateChat : Json → ℕ → Type 0
IsPrivateChat update n =
    (is_private (member "type" (party "chat" update)) ≡ true)
    × HasId "chat" update n
    × HasId "from" update n

same_id-both : (a b : Result ℕ) (n : ℕ) → same_id a b ≡ some n → (a ≡ ok n) × (b ≡ ok n)
unfolding same_id
same_id-both (ok a) (ok b) n h = ground (arith, h)
same_id-both (ok a) (err e) n h = ground (arith, h)
same_id-both (err e) b n h = ground (arith, h)

chat_of-private :
    (chat from_user : Json) (n : ℕ)
    → chat_of chat from_user ≡ some n
    → (is_private (member "type" chat) ≡ true)
      × (validate_user_value (member "id" chat) ≡ ok n)
      × (validate_user_value (member "id" from_user) ≡ ok n)
unfolding chat_of
chat_of-private (object chat) (object from_user) n h = ground (
  arith,
  h,
  same_id-both (validate_user_value (get "id" chat)) (validate_user_value (get "id" from_user)) n,
)
chat_of-private chat from_user n h = ground (arith, h)

private_chat_of-private :
    (message : Json) (n : ℕ)
    → private_chat_of message ≡ some n
    → (is_private (member "type" (member "chat" message)) ≡ true)
      × (validate_user_value (member "id" (member "chat" message)) ≡ ok n)
      × (validate_user_value (member "id" (member "from" message)) ≡ ok n)
unfolding private_chat_of
private_chat_of-private (object message) n h =
    chat_of-private (get "chat" message) (get "from" message) n h
private_chat_of-private message n h = ground (arith, h)

pub eligible-IsPrivateChat :
    (update : Json) (n : ℕ)
    → extract_eligible_private_chat_id_from_telegram_like_update update ≡ some n
    → IsPrivateChat update n
unfolding extract_eligible_private_chat_id_from_telegram_like_update
eligible-IsPrivateChat (object update) n h = private_chat_of-private (get "message" update) n h
eligible-IsPrivateChat update n h = ground (arith, h)

send-target :
    (rendered : RenderedMessagePackage) (target : Option ℕ) (n : ℕ)
    → (send_action rendered target).chat_id ≡ some n
    → target ≡ some n
unfolding send_action
send-target rendered none n h = ground (arith, h)
send-target rendered (some chat) n h = ground (arith, h)

module _ {E : Type 0} (composition : Slice1Composition E) (sources : CatalogSources) where
  module _ (date_text : ℕ → String) (now : ℕ) (fresh : String) where
    action-target :
        (update : Json) (cid : Option String) (env env1 : E)
        (action : TelegramRuntimeAction ReplyMarkup) (n : ℕ)
        → handle_slice1_telegram_update_to_runtime_action composition sources date_text now fresh
            update cid env
          ≡ (ok action, env1)
        → action.chat_id ≡ some n
        → extract_eligible_private_chat_id_from_telegram_like_update update ≡ some n
    unfolding handle_slice1_telegram_update_to_runtime_action
    action-target update cid env env1 action n h chat =
        let (message, env2) =
          handle_slice1_telegram_update_to_rendered_message composition sources date_text now fresh
            update cid env in
        let target = extract_eligible_private_chat_id_from_telegram_like_update update in
        elim (Result-cases message) [
          | inl (ex, raised) ↦ ground (arith, h, raised)
          | inr (rendered, back) ↦
              elim (Result-cases (may_send composition rendered.primary env2).0) [
                | inl (ex, raised) ↦ ground (arith, h, back, raised)
                | inr (may, told) ↦
                    ground (arith, h, chat, back, told, send-target rendered target n)
              ]
        ]

    -- Whatever the composition does, an action that has a chat answers the sender in a chat of
    -- their own: the update's chat is private, its valid id is that of the chat, and so is the
    -- sender's; and if a command was read from the update, it was read as that user's.
    pub action_is_private :
        (update : Json) (cid : Option String) (env env1 : E)
        (action : TelegramRuntimeAction ReplyMarkup) (n : ℕ)
        → handle_slice1_telegram_update_to_runtime_action composition sources date_text now fresh
            update cid env
          ≡ (ok action, env1)
        → action.chat_id ≡ some n
        → IsPrivateChat update n
          × ((e : TransportIncomingEnvelope)
              → extract_slice1_envelope_from_telegram_update fresh cid update ≡ extracted e
              → e.telegram_user_id ≡ pos n)
    action_is_private update cid env env1 action n h chat =
        let private =
          eligible-IsPrivateChat update n (action-target update cid env env1 action n h chat) in
        (
          private,
          λ e read.
              let (uid, (user, id)) = extract-IsUserOf fresh cid update e read in
              ground (arith, user, id, private.2),
        )
