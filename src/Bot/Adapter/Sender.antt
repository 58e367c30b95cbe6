-- ===== src/Bot/Adapter/Sender.antt =====
-- Whose command an envelope is.
use startprojectformillion.Base.{
  ℕ, String, Option, none, some, ◌≡◌, refl, arith, Bool-cases, inl, inr,
}
use startprojectformillion.Shared.{Result, ok, err, Result-cases}
use startprojectformillion.Shared.Validation.{pos}
use startprojectformillion.Shared.Correlation.{is_valid_correlation_id}
use startprojectformillion.Shared.Json.{Json, null, object, get, validate_user_value}
use startprojectformillion.Bot.Normalized.{TransportIncomingEnvelope}
use startprojectformillion.Bot.Adapter.{
  extracted, is_private, has_forbidden, slice1_forbidden_update_keys, is_null,
  validate_update_value, extract_text, extract_ids, extract_from, extract_chat, extract_message,
  extract_update, extract_slice1_envelope_from_telegram_update,
}

-- `value[key]` of a JSON object, and `null` where there is none.
abbrev pub member : String → Json → Json
member key (object fields) = get key fields
member key _ = null

-- The message's `chat` or `from`.
abbrev pub party : String → Json → Json
party who update = member who (member "message" update)

-- The valid identifier of a party.
abbrev pub HasId : String → Json → ℕ → Type 0
HasId who update n = validate_user_value (member "id" (party who update)) ≡ ok n

-- The user of an envelope is the one whose identifier this is.
abbrev pub IsUserOf : TransportIncomingEnvelope → Result ℕ → Type 0
IsUserOf e id = (uid : ℕ) × ((e.telegram_user_id ≡ pos uid) × (id ≡ ok uid))

text-user :
    (cid : String) (update_id uid : ℕ) (value : Json) (e : TransportIncomingEnvelope)
    → extract_text cid update_id uid value ≡ extracted e
    → e.telegram_user_id ≡ pos uid
unfolding extract_text
text-user cid update_id uid value e h = ground (arith, h)

ids-IsUserOf :
    (cid : String) (update_id : ℕ) (id : Result ℕ) (value : Json) (e : TransportIncomingEnvelope)
    → extract_ids cid update_id id value ≡ extracted e
    → IsUserOf e id
unfolding extract_ids
ids-IsUserOf cid update_id (ok uid) value e h = (uid, (text-user cid update_id uid value e h, refl))
ids-IsUserOf cid update_id (err ex) value e h = let never : ⊥ = ground (arith, h) in elim never [ ]

from-IsUserOf :
    (cid : String) (update_id : ℕ) (from_user value : Json) (e : TransportIncomingEnvelope)
    → extract_from cid update_id from_user value ≡ extracted e
    → IsUserOf e (validate_user_value (member "id" from_user))
unfolding extract_from
from-IsUserOf cid update_id (object from_user) value e h =
    ids-IsUserOf cid update_id (validate_user_value (get "id" from_user)) value e h
from-IsUserOf cid update_id from_user value e h =
    let never : ⊥ = ground (arith, h) in elim never [ ]

chat-IsUserOf :
    (cid : String) (update_id : ℕ) (chat from_user value : Json) (e : TransportIncomingEnvelope)
    → extract_chat cid update_id chat from_user value ≡ extracted e
    → IsUserOf e (validate_user_value (member "id" from_user))
unfolding extract_chat
chat-IsUserOf cid update_id (object chat) from_user value e h =
    elim (Bool-cases (is_private (get "type" chat))) [
      | inl private ↦ from-IsUserOf cid update_id from_user value e (ground (arith, h, private))
      | inr shared ↦ let never : ⊥ = ground (arith, h, shared) in elim never [ ]
    ]
chat-IsUserOf cid update_id chat from_user value e h =
    let never : ⊥ = ground (arith, h) in elim never [ ]

message-IsUserOf :
    (cid : String) (update_id : ℕ) (message : Json) (e : TransportIncomingEnvelope)
    → extract_message cid update_id message ≡ extracted e
    → IsUserOf e (validate_user_value (member "id" (member "from" message)))
unfolding extract_message
message-IsUserOf cid update_id (object message) e h =
    chat-IsUserOf cid update_id (get "chat" message) (get "from" message) (get "text" message) e h
message-IsUserOf cid update_id message e h = let never : ⊥ = ground (arith, h) in elim never [ ]

update-IsUserOf :
    (cid : String) (update : Json) (e : TransportIncomingEnvelope)
    → extract_update cid update ≡ extracted e
    → IsUserOf e (validate_user_value (member "id" (party "from" update)))
unfolding extract_update
update-IsUserOf cid (object update) e h =
    let id = validate_update_value (get "update_id" update) in
    elim (Bool-cases (has_forbidden slice1_forbidden_update_keys update)) [
      | inl forbidden ↦ let never : ⊥ = ground (arith, h, forbidden) in elim never [ ]
      | inr plain ↦ elim (Bool-cases (is_null (get "update_id" update))) [
        | inl missing ↦ let never : ⊥ = ground (arith, h, plain, missing) in elim never [ ]
        | inr given ↦ elim (Result-cases id) [
          | inl (ex, bad) ↦ let never : ⊥ = ground (arith, h, plain, given, bad) in elim never [ ]
          | inr (u, good) ↦
              message-IsUserOf cid u (get "message" update) e
                (ground (arith, h, plain, given, good))
        ]
      ]
    ]
update-IsUserOf cid update e h = let never : ⊥ = ground (arith, h) in elim never [ ]

pub extract-IsUserOf :
    (fresh : String) (correlation_id : Option String) (update : Json)
    (e : TransportIncomingEnvelope)
    → extract_slice1_envelope_from_telegram_update fresh correlation_id update ≡ extracted e
    → IsUserOf e (validate_user_value (member "id" (party "from" update)))
unfolding extract_slice1_envelope_from_telegram_update
extract-IsUserOf fresh none update e h = update-IsUserOf fresh update e h
extract-IsUserOf fresh (some cid) update e h = elim (Bool-cases (is_valid_correlation_id cid)) [
  | inl valid ↦ update-IsUserOf cid update e (ground (arith, h, valid))
  | inr bad ↦ let never : ⊥ = ground (arith, h, bad) in elim never [ ]
]
