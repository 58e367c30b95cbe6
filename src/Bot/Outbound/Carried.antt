-- ===== src/Bot/Outbound/Carried.antt =====
-- What a plan keeps of its response.
use startprojectformillion.Base.{false, str_eq, if-keeps, ◌≡◌, refl, arith}
use startprojectformillion.Bot.Codes.{
  TransportBootstrapCode, TransportStatusCode, TransportHelpCode, TransportStorefrontCode,
  TransportSupportCode, TransportAccessResendCode, bootstrap_code, status_code, help_code,
  storefront_code, support_code, resend_code, TransportSafeResponse,
}
use startprojectformillion.Bot.Outbound.{
  TelegramOutboundPlan, success_outbound, guidance_outbound, error_outbound,
  map_transport_safe_to_outbound_plan,
}

-- The identifier is kept, and a plan is a replay only if its response is.
unfoldable Carried : TransportSafeResponse → TelegramOutboundPlan → Type 0
Carried response plan =
    (plan.correlation_id ≡ response.correlation_id)
    × (response.replay_suppresses_outbound ≡ false → plan.replay_suppresses_outbound ≡ false)

leaf-Carried :
    (response : TransportSafeResponse) (plan : TelegramOutboundPlan)
    → plan.correlation_id ≡ response.correlation_id
    → (response.replay_suppresses_outbound ≡ false → plan.replay_suppresses_outbound ≡ false)
    → Carried response plan
unfolding Carried
leaf-Carried response plan same kept = (same, kept)

success-Carried : (response : TransportSafeResponse) → Carried response (success_outbound response)
unfolding success_outbound
success-Carried response =
    let P = Carried response in
    let code = response.code in
    (if-keeps P (str_eq code (bootstrap_code TransportBootstrapCode.identity_ready))
      (leaf-Carried response _ refl (λ h. h))
      (if-keeps P (str_eq code (help_code TransportHelpCode.slice1_help))
        (leaf-Carried response _ refl (λ h. refl))
        (if-keeps P (str_eq code (status_code TransportStatusCode.subscription_expired))
          (leaf-Carried response _ refl (λ h. refl))
          (if-keeps P (str_eq code (storefront_code TransportStorefrontCode.store_menu))
            (leaf-Carried response _ refl (λ h. refl))
            (if-keeps P (str_eq code (storefront_code TransportStorefrontCode.store_plans))
              (leaf-Carried response _ refl (λ h. refl))
              (if-keeps P (str_eq code (storefront_code TransportStorefrontCode.store_buy))
                (leaf-Carried response _ refl (λ h. refl))
                (if-keeps P (str_eq code (storefront_code TransportStorefrontCode.store_success))
                  (leaf-Carried response _ refl (λ h. refl))
                  (if-keeps P
                    (str_eq code (storefront_code TransportStorefrontCode.store_success_active))
                    (leaf-Carried response _ refl (λ h. refl))
                    (if-keeps P (str_eq code (storefront_code TransportStorefrontCode.store_renew))
                      (leaf-Carried response _ refl (λ h. refl))
                      (if-keeps P (str_eq code (support_code TransportSupportCode.support_menu))
                        (leaf-Carried response _ refl (λ h. refl))
                        (if-keeps P
                          (str_eq code (support_code TransportSupportCode.support_contact))
                          (leaf-Carried response _ refl (λ h. refl))
                          (if-keeps P
                            (str_eq code (resend_code TransportAccessResendCode.resend_accepted))
                            (leaf-Carried response _ refl (λ h. refl))
                            (if-keeps P
                              (str_eq code (resend_code TransportAccessResendCode.not_enabled))
                              (leaf-Carried response _ refl (λ h. refl))
                              (if-keeps P
                                (str_eq code (resend_code TransportAccessResendCode.not_eligible))
                                (leaf-Carried response _ refl (λ h. refl))
                                (if-keeps P
                                  (str_eq code (resend_code TransportAccessResendCode.cooldown))
                                  (leaf-Carried response _ refl (λ h. refl))
                                  (if-keeps P
                                    (str_eq code (resend_code TransportAccessResendCode.not_ready))
                                    (leaf-Carried response _ refl (λ h. refl))
                                    (if-keeps P
                                      (str_eq code (
                                        resend_code
                                          TransportAccessResendCode.temporarily_unavailable))
                                      (leaf-Carried response _ refl (λ h. refl))
                                      (if-keeps P
                                        (str_eq code (
                                          status_code TransportStatusCode.inactive_or_not_eligible))
                                        (leaf-Carried response _ refl (λ h. refl))
                                        (if-keeps P
                                          (str_eq code
                                            (status_code TransportStatusCode.needs_review))
                                          (leaf-Carried response _ refl (λ h. refl))
                                          (if-keeps P
                                            (str_eq code
                                              (status_code TransportStatusCode.subscription_active))
                                            (leaf-Carried response _ refl (λ h. refl))
                                            (if-keeps P
                                              (str_eq code (
                                                status_code
                                                  TransportStatusCode.subscription_active_access_not_ready))
                                              (leaf-Carried response _ refl (λ h. refl))
                                              (if-keeps P
                                                (str_eq code (
                                                  status_code
                                                    TransportStatusCode.subscription_active_access_ready))
                                                (leaf-Carried response _ refl (λ h. refl))
                                                (leaf-Carried response _ refl
                                                  (λ h. refl))))))))))))))))))))))))

guidance-Carried :
    (response : TransportSafeResponse) → Carried response (guidance_outbound response)
unfolding guidance_outbound Carried
guidance-Carried response = ground arith

error-Carried : (response : TransportSafeResponse) → Carried response (error_outbound response)
unfolding error_outbound Carried
error-Carried response = ground arith

plan-Carried :
    (response : TransportSafeResponse)
    → Carried response (map_transport_safe_to_outbound_plan response)
unfolding map_transport_safe_to_outbound_plan
plan-Carried response =
    ground (arith, success-Carried response, guidance-Carried response, error-Carried response)

pub plan-cid :
    (response : TransportSafeResponse)
    → (map_transport_safe_to_outbound_plan response).correlation_id ≡ response.correlation_id
unfolding Carried
plan-cid response = (plan-Carried response).0

pub plan-fresh :
    (response : TransportSafeResponse)
    → response.replay_suppresses_outbound ≡ false
    → (map_transport_safe_to_outbound_plan response).replay_suppresses_outbound ≡ false
unfolding Carried
plan-fresh response = (plan-Carried response).1
