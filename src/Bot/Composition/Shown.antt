-- ===== src/Bot/Composition/Shown.antt =====
-- What the composition in memory answers.
use startprojectformillion.Base.{ℕ, String, ◌≡◌, arith}
use startprojectformillion.Shared.{Exec, ok, OperationOutcomeCategory}
use startprojectformillion.Handlers.Ports.{Stores}
use startprojectformillion.Handlers.Memory.{MemoryStores, memory_stores}
use startprojectformillion.Handlers.Status.{
  GetSubscriptionStatusInput, Lookup, status_raised, status_of_snapshot, status_of_access,
  status_of_identity, get_status,
}
use startprojectformillion.Handlers.Resend.{ResendParts}
use startprojectformillion.Bot.Codes.{TransportSafeResponse}
use startprojectformillion.Bot.Normalized.{TransportIncomingEnvelope}
use startprojectformillion.Bot.Dispatcher.{
  TelegramCommandRateLimitDecisionEvent, dispatch_slice1_transport,
}
use startprojectformillion.Bot.Dispatcher.Answers.{StatusIsBootstrapped, dispatch-IsKnown}
use startprojectformillion.Bot.Outbound.Known.{IsKnown, IsBootstrapped}
use startprojectformillion.Bot.Composition.{Slice1State, build_slice1_composition}

module _ {E : Type 0} (stores : Stores E) (lookup : Lookup E) where
  status-IsBootstrapped :
      (inp : GetSubscriptionStatusInput) (now : ℕ) (env : E)
      → (get_status stores lookup inp now env).0.outcome ≡ OperationOutcomeCategory.success
      → IsBootstrapped (get_status stores lookup inp now env).0.safe_status
  unfolding get_status status_of_identity status_of_access status_raised status_of_snapshot
  status-IsBootstrapped inp now env h = ground (arith, h)

module _ (hexdigest : String → String) (lookup : Lookup MemoryStores)
    (parts : ResendParts Slice1State)
    (emit : TelegramCommandRateLimitDecisionEvent → Exec Slice1State Unit) (now seconds : ℕ)
    (date_text : ℕ → String) where
  composition-IsBootstrapped :
      StatusIsBootstrapped
        (build_slice1_composition hexdigest lookup parts emit now seconds)
        date_text
        now
  unfolding build_slice1_composition
  composition-IsBootstrapped inp s s1 result h success =
      ground (arith, h, success, status-IsBootstrapped memory_stores lookup inp now s.stores)

  -- Each response that the dispatcher gives over the composition in memory, whatever the command, the
  -- stores, the limiter and the parts of the resend handler are, has a plan with the response's own
  -- code as message key, its own category and its correlation id: no answer falls to the text for an
  -- outage unless it says so itself.
  pub composition-IsKnown :
      (e : TransportIncomingEnvelope) (s s1 : Slice1State) (r : TransportSafeResponse)
      → dispatch_slice1_transport
          (build_slice1_composition hexdigest lookup parts emit now seconds)
          date_text
          now
          e
          s
        ≡ (ok r, s1)
      → IsKnown r
  composition-IsKnown =
      dispatch-IsKnown (build_slice1_composition hexdigest lookup parts emit now seconds) date_text
        now composition-IsBootstrapped
