-- ===== src/Issuance/Audit.antt =====
-- The audit trail of `IssuanceService`: one record for each call that returns.
use startprojectformillion.Base.{◌≡◌, ◌∷◌, [], ◌++◌}
use startprojectformillion.Shared.{Result, ok, err}
use startprojectformillion.Issuance.Contracts.{IssuanceRequest, IssuanceServiceResult}
use startprojectformillion.Issuance.Memory.{World, audit_record}

-- What a call has appended: its own record if it returns, nothing if it raises.
abbrev pub Audited :
    {E : Type 0} → IssuanceRequest → World E → Result IssuanceServiceResult × World E → Type 0
Audited request w (ok res, w') =
    w'.service.audit ≡ w.service.audit ++ audit_record request res.category ∷ []
Audited request w (err e, w') = w'.service.audit ≡ w.service.audit
