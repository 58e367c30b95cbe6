-- ===== src/Issuance/Service.antt =====
-- `IssuanceService.execute` (backend/src/app/issuance/service.py).
use startprojectformillion.Base.{Option, none, some}
use startprojectformillion.Shared.{Exec}
use startprojectformillion.Issuance.Contracts.{
  IssuanceOperationType, IssuanceRequest, IssuanceServiceResult, IssuanceProviderPort,
  IssuanceOperationalStatePort,
}
use startprojectformillion.Issuance.Memory.{World, validate_basics, finish, plain}
use startprojectformillion.Issuance.Issue.{execute_issue}
use startprojectformillion.Issuance.Resend.{execute_resend}
use startprojectformillion.Issuance.Revoke.{execute_revoke}

module _ {E : Type 0} (provider : IssuanceProviderPort E)
    (store : Option (IssuanceOperationalStatePort E)) where
  unfoldable pub execute : IssuanceRequest → Exec (World E) IssuanceServiceResult
  unfolding finish
  execute request w = elim (validate_basics request) [
    | some bad ↦ finish request (plain bad) w
    | none ↦ elim request.operation [
      | IssuanceOperationType.issue ↦ execute_issue provider store request w
      | IssuanceOperationType.resend ↦ execute_resend provider store request w
      | IssuanceOperationType.revoke ↦ execute_revoke provider store request w
    ]
  ]
