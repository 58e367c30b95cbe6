-- ===== src/Bot/Composition/Redelivery.antt =====
-- `/start` delivered again, over the composition in memory.
use startprojectformillion.Base.{
  ℕ, String, Bool, subst, true, Option, some, ◌≡◌, refl, ap, arith, string_eq,
}
use startprojectformillion.Shared.{Exec, ok, OperationOutcomeCategory}
use startprojectformillion.Shared.Json.{Json, Fields, object, get}
use startprojectformillion.Handlers.Memory.{MemoryStores, memory_stores}
use startprojectformillion.Handlers.Bootstrap.{BootstrapIdentityInput, bootstrap}
use startprojectformillion.Handlers.Bootstrap.Registered.{bootstrap_again}
use startprojectformillion.Handlers.Status.{Lookup}
use startprojectformillion.Handlers.Resend.{ResendParts}
use startprojectformillion.Bot.Presentation.{identity_response, map_bootstrap_identity_to_transport}
use startprojectformillion.Bot.Normalized.{
  TransportIncomingEnvelope, NormalizedSlice1Result, parse_slice1_transport,
}
use startprojectformillion.Bot.Normalized.Accepted.{IsAccepted, parse-IsAccepted}
use startprojectformillion.Bot.Adapter.{extracted, extract_slice1_envelope_from_telegram_update}
use startprojectformillion.Bot.Delivery.{DeliveryStatus, DeliveryLedger, ensure_pending, mark_sent}
use startprojectformillion.Bot.Delivery as Delivery
use startprojectformillion.Bot.Dispatcher.{
  TelegramCommandRateLimitDecisionEvent, dispatch_parsed, run_bootstrap, dispatch_slice1_transport,
}
use startprojectformillion.Bot.Catalog.{
  RenderedMessagePackage, render_known, text_of_plan, render_telegram_outbound_plan,
}
use startprojectformillion.Bot.Catalog.Texts.{catalog_text}
use startprojectformillion.Bot.Catalog.Copy.{CatalogSources}
use startprojectformillion.Bot.Outbound.{map_transport_safe_to_outbound_plan, success_outbound}
use startprojectformillion.Bot.Runtime.{
  private_chat_of, extract_private_telegram_user_id, render_response, noop_action, may_send,
  handle_slice1_telegram_update, handle_slice1_telegram_update_to_rendered_message,
  handle_slice1_telegram_update_to_runtime_action,
}
use startprojectformillion.Bot.Composition.{Slice1State, build_slice1_composition}

module _ (hexdigest : String → String) (lookup : Lookup MemoryStores)
    (parts : ResendParts Slice1State)
    (emit : TelegramCommandRateLimitDecisionEvent → Exec Slice1State Unit) (now seconds : ℕ)
    (sources : CatalogSources) (date_text : ℕ → String) where
  -- What `/start` answers.
  start-answer :
      (fresh : String) (cid : Option String) (update : Json) (e : TransportIncomingEnvelope)
      (inp : BootstrapIdentityInput) (s : Slice1State)
      → extract_slice1_envelope_from_telegram_update fresh cid update ≡ extracted e
      → parse_slice1_transport e ≡ NormalizedSlice1Result.normalized_bootstrap inp
      → handle_slice1_telegram_update
          (build_slice1_composition hexdigest lookup parts emit now seconds)
          sources
          date_text
          now
          fresh
          update
          cid
          s
        ≡ (
          ok (
              map_bootstrap_identity_to_transport
                (bootstrap memory_stores hexdigest inp s.stores).0),
          record s { stores = (bootstrap memory_stores hexdigest inp s.stores).1 },
        )
  unfolding handle_slice1_telegram_update dispatch_slice1_transport dispatch_parsed run_bootstrap
      build_slice1_composition
  start-answer fresh cid update e inp s read parsed = ground (arith, read, parsed)

  identity-rendered :
      (replay : Bool) (key cid : String) (uid : Option ℕ)
      → (rendered : RenderedMessagePackage) × ((render_response sources
              (identity_response replay (some key) cid)
              uid
            ≡ ok rendered)
          × (rendered.primary.correlation_id ≡ cid)
          × (rendered.primary.replay_suppresses_outbound ≡ replay)
          × (rendered.primary.uc01_idempotency_key ≡ some key))
  unfolding render_response map_transport_safe_to_outbound_plan success_outbound render_known
      render_telegram_outbound_plan catalog_text text_of_plan
  identity-rendered replay key cid uid = (_, (refl, refl, refl, refl))

  -- A `/start` that was handled before, by any state that still has its stores.
  again-answer :
      (fresh : String) (cid : Option String) (update : Json) (e : TransportIncomingEnvelope)
      (inp again : BootstrapIdentityInput) (m : MemoryStores) (s : Slice1State) (key : String)
      → extract_slice1_envelope_from_telegram_update fresh cid update ≡ extracted e
      → parse_slice1_transport e ≡ NormalizedSlice1Result.normalized_bootstrap again
      → again.telegram_user_id ≡ inp.telegram_user_id
      → again.telegram_update_id ≡ inp.telegram_update_id
      → (bootstrap memory_stores hexdigest inp m).0.outcome ≡ OperationOutcomeCategory.success
      → (bootstrap memory_stores hexdigest inp m).0.uc01_idempotency_key ≡ some key
      → s.stores ≡ (bootstrap memory_stores hexdigest inp m).1
      → handle_slice1_telegram_update
          (build_slice1_composition hexdigest lookup parts emit now seconds)
          sources
          date_text
          now
          fresh
          update
          cid
          s
        ≡ (ok (identity_response true (some key) again.correlation_id), s)
  unfolding map_bootstrap_identity_to_transport
  again-answer fresh cid update e inp again m s key read parsed user event done keyed kept =
      let accepted : IsAccepted e (NormalizedSlice1Result.normalized_bootstrap again) =
        subst (IsAccepted e) parsed (parse-IsAccepted e) in
      let (k, (identity, (named, replayed))) =
        bootstrap_again hexdigest inp again m user event accepted.0.3 done in
      ground (
        arith,
        start-answer fresh cid update e again s read parsed,
        named,
        keyed,
        kept,
        replayed,
        ap (bootstrap memory_stores hexdigest again) kept,
      )

  silent_replay :
      (fresh : String) (cid : Option String) (fields : Fields) (s : Slice1State) (key own : String)
      → handle_slice1_telegram_update
          (build_slice1_composition hexdigest lookup parts emit now seconds)
          sources
          date_text
          now
          fresh
          (object fields)
          cid
          s
        ≡ (ok (identity_response true (some key) own), s)
      → s.deliveries.status_by_key key ≡ some DeliveryStatus.sent
      → handle_slice1_telegram_update_to_runtime_action
          (build_slice1_composition hexdigest lookup parts emit now seconds)
          sources
          date_text
          now
          fresh
          (object fields)
          cid
          s
        ≡ (ok (noop_action own), s)
  unfolding handle_slice1_telegram_update_to_runtime_action may_send build_slice1_composition
      handle_slice1_telegram_update_to_rendered_message extract_private_telegram_user_id
      Delivery.get_status
  silent_replay fresh cid fields s key own answered sent =
      let uid = private_chat_of (get "message" fields) in
      let (rendered, (shown, same, flag, keyed)) = identity-rendered true key own uid in
      ground (arith, answered, sent, shown, same, flag, keyed)

  -- Over the composition in memory: once `/start` has succeeded, and the message that answered it is
  -- marked as sent in the delivery ledger under its key, any update whose command is `/start` with the same
  -- user and update ids leads to no action and changes nothing, whatever its correlation id is.
  pub delivered_start_is_silent :
      (fresh : String) (cid : Option String) (fields : Fields) (e : TransportIncomingEnvelope)
      (inp again : BootstrapIdentityInput) (m : MemoryStores) (s : Slice1State) (key : String)
      → extract_slice1_envelope_from_telegram_update fresh cid (object fields) ≡ extracted e
      → parse_slice1_transport e ≡ NormalizedSlice1Result.normalized_bootstrap again
      → again.telegram_user_id ≡ inp.telegram_user_id
      → again.telegram_update_id ≡ inp.telegram_update_id
      → (bootstrap memory_stores hexdigest inp m).0.outcome ≡ OperationOutcomeCategory.success
      → (bootstrap memory_stores hexdigest inp m).0.uc01_idempotency_key ≡ some key
      → s.stores ≡ (bootstrap memory_stores hexdigest inp m).1
      → s.deliveries.status_by_key key ≡ some DeliveryStatus.sent
      → handle_slice1_telegram_update_to_runtime_action
          (build_slice1_composition hexdigest lookup parts emit now seconds)
          sources
          date_text
          now
          fresh
          (object fields)
          cid
          s
        ≡ (ok (noop_action again.correlation_id), s)
  delivered_start_is_silent fresh cid fields e inp again m s key read parsed user event done keyed
        kept sent =
      silent_replay fresh cid fields s key again.correlation_id
        (again-answer fresh cid (object fields) e inp again m s key read parsed user event done
          keyed kept)
        sent
