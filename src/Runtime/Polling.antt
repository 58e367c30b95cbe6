-- ===== src/Runtime/Polling.antt =====
-- backend/src/app/runtime/polling.py. `handle_slice1_telegram_update_to_runtime_action`, the client
-- and the outbound delivery ledger are given as ports on the surroundings `E`; `U` is the type of
-- update mappings and `M` that of reply markups.
pub mod Counts
use startprojectformillion.Base.{
  ℕ, zero, suc, ◌+◌, String, Bool, true, false, Option, none, some, List, [], ◌∷◌, length, take,
  is_blank, if◌then◌else◌, map_option,
}
use startprojectformillion.Shared.{Exec, Result, ok, err}

-- backend/src/app/bot_transport/runtime_wrapper.py
pub data TelegramRuntimeActionKind : Type 0 where
  send_message noop : TelegramRuntimeActionKind

pub record TelegramRuntimeFollowUpSend (M : Type 0) : Type 0 where
  pub message_text : String
  pub reply_markup : Option M

pub record TelegramRuntimeAction (M : Type 0) : Type 0 where
  pub kind : TelegramRuntimeActionKind
  pub correlation_id : String
  pub chat_id : Option ℕ
  pub message_text : Option String
  pub action_keys : List String
  pub reply_markup : Option M
  pub uc01_idempotency_key : Option String
  pub follow_ups : List (TelegramRuntimeFollowUpSend M)

pub record PollingBatchResult : Type 0 where
  pub received_count : ℕ
  pub send_count : ℕ
  pub noop_count : ℕ
  pub send_failure_count : ℕ
  pub processing_failure_count : ℕ
  pub fetch_failure_count : ℕ

-- What the batch shell calls.
pub record PollingPorts (E U M : Type 0) : Type 0 where
  pub to_runtime_action : U → Exec E (TelegramRuntimeAction M)
  pub ensure_pending : String → Exec E (Unit {0})
  pub mark_sent : String → ℕ → Exec E (Unit {0})
  pub send_text_message : Option ℕ → String → String → Option M → Exec E ℕ
  pub fetch_updates : ℕ → Exec E (List U)

-- `action.message_text or ""`
abbrev text_or_empty : Option String → String
text_or_empty none = ""
text_or_empty (some s) = s

abbrev follow_up_sends :
    {M : Type 0} → List (TelegramRuntimeFollowUpSend M) → List (String × Option M)
follow_up_sends [] = []
follow_up_sends (fu ∷ fus) = (fu.message_text, fu.reply_markup) ∷ follow_up_sends fus

unfoldable pub sends_of : {M : Type 0} → TelegramRuntimeAction M → List (String × Option M)
sends_of action =
    (text_or_empty action.message_text, action.reply_markup) ∷ follow_up_sends action.follow_ups

-- The counters of the loop over the batch.
pub record Counters : Type 0 where
  pub send_ok : ℕ
  pub noop : ℕ
  pub send_fail : ℕ
  pub process_fail : ℕ

module _ {E U M : Type 0} (ports : PollingPorts E U M) (max_updates_per_batch : ℕ) where
  -- `if first and idem_key is not None: … mark_sent`
  mark_first : Bool → Option String → ℕ → Exec E (Unit {0})
  mark_first true (some key) msg_id env = ports.mark_sent key msg_id env
  mark_first _ _ msg_id env = (ok tt, env)

  -- `for text, markup in sends`: the messages sent so far, and whether a call raised
  unfoldable pub send_loop :
      TelegramRuntimeAction M → List (String × Option M) → Bool → ℕ → E → Bool × ℕ × E
  unfolding mark_first
  send_loop action [] first sent env = (true, sent, env)
  send_loop action ((text, markup) ∷ rest) first sent env = elim (is_blank text) [
    | true ↦ send_loop action rest first sent env
    | false ↦
        let (r, env1) =
          ports.send_text_message action.chat_id text action.correlation_id markup env in
        elim r [
          | err e ↦ (false, sent, env1)
          | ok msg_id ↦
              let (m, env2) = mark_first first action.uc01_idempotency_key msg_id env1 in
              elim m [
                | err e ↦ (false, sent, env2)
                | ok done ↦ send_loop action rest false (sent + 1) env2
              ]
        ]
  ]

  -- The `try` block round the sends of one action.
  unfoldable pub send_action : TelegramRuntimeAction M → E → Bool × ℕ × E
  unfolding send_loop sends_of
  send_action action env = elim action.uc01_idempotency_key [
    | none ↦ send_loop action (sends_of action) true 0 env
    | some key ↦
        let (r, env1) = ports.ensure_pending key env in
        elim r [
          | err e ↦ (false, 0, env1)
          | ok done ↦ send_loop action (sends_of action) true 0 env1
        ]
  ]

  -- One round of the loop.
  unfoldable pub process_update : U → Counters → E → Counters × E
  unfolding send_action
  process_update u c env =
      let (r, env1) = ports.to_runtime_action u env in
      elim r [
        | err e ↦ (record c { process_fail = c.process_fail + 1 }, env1)
        | ok action ↦ elim action.kind [
          | TelegramRuntimeActionKind.noop ↦ (record c { noop = c.noop + 1 }, env1)
          | TelegramRuntimeActionKind.send_message ↦
              let (all_sent, sent, env2) = send_action action env1 in
              elim all_sent [
                | true ↦ (record c { send_ok = c.send_ok + sent }, env2)
                | false ↦
                    (record c { send_ok = c.send_ok + sent; send_fail = c.send_fail + 1 }, env2)
              ]
        ]
      ]

  unfoldable pub process_loop : List U → Counters → E → Counters × E
  process_loop [] c env = (c, env)
  process_loop (u ∷ us) c env = let (c', env') = process_update u c env in process_loop us c' env'

  -- It raises nothing.
  unfoldable pub process_batch : List U → E → PollingBatchResult × E
  unfolding process_loop
  process_batch updates env =
      let capped = take max_updates_per_batch updates in
      let (c, env') =
        process_loop capped (record { send_ok = 0; noop = 0; send_fail = 0; process_fail = 0 })
          env in
      (
        record {
          received_count = length capped;
          send_count = c.send_ok;
          noop_count = c.noop;
          send_failure_count = c.send_fail;
          processing_failure_count = c.process_fail;
          fetch_failure_count = 0;
        },
        env',
      )

  unfoldable pub poll_once : E → PollingBatchResult × E
  unfolding process_batch
  poll_once env =
      let (r, env') = ports.fetch_updates max_updates_per_batch env in
      elim r [
        | err e ↦ (
          record {
            received_count = 0;
            send_count = 0;
            noop_count = 0;
            send_failure_count = 0;
            processing_failure_count = 0;
            fetch_failure_count = 1;
          },
          env',
        )
        | ok updates ↦ process_batch updates env'
      ]
