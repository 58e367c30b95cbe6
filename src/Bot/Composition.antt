-- ===== src/Bot/Composition.antt =====
-- `build_slice1_composition` (backend/src/app/application/bootstrap.py) with its defaults: the stores,
-- the delivery ledger and the rate limiter in memory, in one state.
pub mod Redelivery
pub mod Shown
use startprojectformillion.Base.{ℕ, String, Bool, Option, none, some}
use startprojectformillion.Shared.{Exec, Result, ok, err, other_exception}
use startprojectformillion.Shared.Validation.{ℤ, pos, negsuc}
use startprojectformillion.Handlers.Memory.{MemoryStores, memory_stores, no_stores}
use startprojectformillion.Handlers.Bootstrap.{
  BootstrapIdentityInput, BootstrapIdentityResult, bootstrap,
}
use startprojectformillion.Handlers.Status.{
  GetSubscriptionStatusInput, GetSubscriptionStatusResult, Lookup, get_status,
}
use startprojectformillion.Handlers.Resend.{ResendParts, handle_resend}
use startprojectformillion.Transport.RateLimit.{
  TelegramCommandRateLimitKey, RateLimiter, default_limiter, allow,
}
use startprojectformillion.Bot.Delivery.{DeliveryLedger, OutboundDeliveryRecord, no_deliveries}
use startprojectformillion.Bot.Delivery as Delivery
use startprojectformillion.Bot.Dispatcher.{Slice1Composition, TelegramCommandRateLimitDecisionEvent}

pub record Slice1State : Type 0 where
  pub stores : MemoryStores
  pub deliveries : DeliveryLedger
  pub limiter : RateLimiter

unfoldable pub fresh_state : Slice1State
unfolding default_limiter
fresh_state = record { stores = no_stores; deliveries = no_deliveries; limiter = default_limiter }

-- A call of the delivery ledger.
abbrev pub on_deliveries : {A : Type 0} → Exec DeliveryLedger A → Exec Slice1State A
on_deliveries call s =
    let (result, deliveries) = call s.deliveries in (result, record s { deliveries = deliveries })

-- The limiter at the time `seconds`; the dispatcher gives it validated ids only, which are positive.
unfoldable pub allow_at : ℕ → ℤ → TelegramCommandRateLimitKey → Exec Slice1State Bool
unfolding allow
allow_at seconds (pos uid) key s =
    let (allowed, limiter) = allow uid key seconds s.limiter in
    (ok allowed, record s { limiter = limiter })
allow_at seconds (negsuc n) key s = (err other_exception, s)

-- The status handler's stores are those in memory; its lookup, the parts of the resend handler and
-- the telemetry are given.
unfoldable pub build_slice1_composition :
    (String → String)
    → Lookup MemoryStores
    → ResendParts Slice1State
    → (TelegramCommandRateLimitDecisionEvent → Exec Slice1State Unit)
    → ℕ
    → ℕ
    → Slice1Composition Slice1State
unfolding bootstrap get_status handle_resend allow_at Delivery.get_status
build_slice1_composition hexdigest lookup parts emit now seconds = record {
  bootstrap = λ (inp : BootstrapIdentityInput) (s : Slice1State).
      let (result, stores) = bootstrap memory_stores hexdigest inp s.stores in
      (ok result, record s { stores = stores });
  get_status = λ (inp : GetSubscriptionStatusInput) (s : Slice1State).
      let (result, stores) = get_status memory_stores lookup inp now s.stores in
      (ok result, record s { stores = stores });
  access_resend = handle_resend parts;
  allow = allow_at seconds;
  emit_decision = emit;
  outbound_delivery = some (λ (key : String). on_deliveries (Delivery.get_status key));
}
