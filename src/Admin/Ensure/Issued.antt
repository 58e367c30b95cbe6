-- ===== src/Admin/Ensure/Issued.antt =====
-- When the remediation has issued access.
use startprojectformillion.Base.{
  String, Bool, true, false, Option, none, some, map_option, eq_iff, ◌≡◌, refl, sym, arith, inl,
  inr,
}
use startprojectformillion.Shared.{ok, Result-cases}
use startprojectformillion.Shared.Correlation.{require_correlation_id}
use startprojectformillion.Handlers.Ports.{SubscriptionSnapshot}
use startprojectformillion.Admin.Contracts.{
  AdminInput, IssuanceOperationalState, is_active_bucket, is_ok_state,
  subscription_bucket_from_snapshot, attempt, attempt-reaches,
}
use startprojectformillion.Admin.Ensure.{
  EnsurePorts, EnsureAccessOutcome, refused, EnsureAccessResult, EnsureAccessSummary,
  RemediationResult, Concluded, safe_failed_result, issue_missing, remediate, remediate_user,
  remediate_enabled, remediate_allowed, conclude, handle_ensure,
}

-- The result says that access was issued.
abbrev pub SaysIssued : EnsureAccessResult → Type 0
SaysIssued result =
    map_option (λ (s : EnsureAccessSummary). s.remediation_result) result.summary
    ≡ some RemediationResult.issued_access

module _ {E : Type 0} (ports : EnsurePorts E) where
  -- The mutation, made for the user from `env`, issued access, and the state read after it is OK.
  abbrev pub IsIssuedIn : String → String → E → Type 0
  IsIssuedIn cid user env =
      ((ports.ensure_access_issued user cid env).0 ≡ ok true)
      × ((ports.get_issuance_summary user (ports.ensure_access_issued user cid env).1).0
          ≡ ok IssuanceOperationalState.ok_state)

  -- The user's snapshot, read from `env`, is active, and the issuance's state is not OK before the
  -- mutation.
  abbrev pub IsPaidIn : String → String → E → Type 0
  IsPaidIn cid user env =
      let (snapshot, env1) = ports.get_subscription_snapshot user env in
      let (state, env2) = ports.get_issuance_summary user env1 in
      (snap : SubscriptionSnapshot) × ((before : IssuanceOperationalState) × ((snapshot
            ≡ ok (some snap))
          × (snap.state_label ≡ "active")
          × (state ≡ ok before)
          × (is_ok_state before ≡ false)
          × IsIssuedIn cid user env2))

  Said : Concluded → E → Type 0
  Said c env = SaysIssued c.0

  issue_lem :
      (cid user : String) (env : E)
      → SaysIssued (issue_missing ports cid user env).0.0
      → IsIssuedIn cid user env
  unfolding issue_missing attempt
  issue_lem cid user env h = ground (arith, h)

  active_lem :
      (snapshot : Option SubscriptionSnapshot)
      → is_active_bucket (subscription_bucket_from_snapshot snapshot) ≡ true
      → (snap : SubscriptionSnapshot) × ((snapshot ≡ some snap) × (snap.state_label ≡ "active"))
  unfolding subscription_bucket_from_snapshot
  active_lem none h = let never : ⊥ = ground (arith, h) in elim never [ ]
  active_lem (some snap) h = (snap, (refl, ground (arith, h, eq_iff snap.state_label "active")))

  remediate_lem :
      (cid user : String) (snapshot : Option SubscriptionSnapshot)
      (state : IssuanceOperationalState) (env : E)
      → SaysIssued (remediate ports cid user snapshot state env).0.0
      → (is_active_bucket (subscription_bucket_from_snapshot snapshot) ≡ true)
        × (is_ok_state state ≡ false)
        × SaysIssued (issue_missing ports cid user env).0.0
  unfolding remediate
  remediate_lem cid user snapshot state env h = ground (arith, h)

  user_lem :
      (cid user : String) (env : E)
      → SaysIssued (remediate_user ports cid (some user) env).0.0
      → IsPaidIn cid user env
  unfolding remediate_user Said
  user_lem cid user env h =
      let failed_result : Concluded = (safe_failed_result cid, none) in
      let (snapshot, (read, h1)) =
        attempt-reaches Said (ports.get_subscription_snapshot user) failed_result
          (λ snapshot.
            attempt (ports.get_issuance_summary user) failed_result
              (remediate ports cid user snapshot))
          env (λ q. ground (arith, q)) h in
      let env1 : E = (ports.get_subscription_snapshot user env).1 in
      let (state, (told, h2)) =
        attempt-reaches Said (ports.get_issuance_summary user) failed_result
          (remediate ports cid user snapshot) env1 (λ q. ground (arith, q)) h1 in
      let env2 : E = (ports.get_issuance_summary user env1).1 in
      let (active, not_ready, h3) = remediate_lem cid user snapshot state env2 h2 in
      let (snap, (found, labelled)) = active_lem snapshot active in
      (
        snap,
        (
          state,
          (ground (arith, read, found), labelled, told, not_ready, issue_lem cid user env2 h3),
        ),
      )

  -- The user is resolved from `env`, and has paid for access that is then issued.
  abbrev pub IsDueIn : AdminInput → E → Type 0
  IsDueIn inp env =
      let cid = inp.correlation_id in
      let (found, env1) = ports.resolve_internal_user_id inp.target cid env in
      (user : String) × ((found ≡ ok (some user)) × IsPaidIn cid user env1)

  due_lem :
      (inp : AdminInput) (env : E) (found : Option String)
      → (ports.resolve_internal_user_id inp.target inp.correlation_id env).0 ≡ ok found
      → SaysIssued
          (remediate_user ports inp.correlation_id found
            (ports.resolve_internal_user_id inp.target inp.correlation_id env).1).0.0
      → IsDueIn inp env
  unfolding remediate_user
  due_lem inp env none resolved h = let never : ⊥ = ground (arith, h) in elim never [ ]
  due_lem inp env (some user) resolved h = (
    user,
    (
      resolved,
      user_lem inp.correlation_id user
          (ports.resolve_internal_user_id inp.target inp.correlation_id env).1 h,
    ),
  )

  enabled_lem :
      (inp : AdminInput) (enabled : Bool) (env : E)
      → SaysIssued (remediate_enabled ports inp enabled env).0.0
      → (enabled ≡ true) × IsDueIn inp env
  unfolding remediate_enabled Said
  enabled_lem inp false env h = let never : ⊥ = ground (arith, h) in elim never [ ]
  enabled_lem inp true env h =
      let cid = inp.correlation_id in
      let (found, (resolved, h1)) =
        attempt-reaches Said (ports.resolve_internal_user_id inp.target cid)
          (refused EnsureAccessOutcome.dependency_failure cid, none) (remediate_user ports cid) env
          (λ q. ground (arith, q)) h in
      (refl, due_lem inp env found resolved h1)

  allowed_lem :
      (inp : AdminInput) (allowed : Bool) (env : E)
      → SaysIssued (remediate_allowed ports inp allowed env).0.0
      → (allowed ≡ true)
        × ((ports.check_opt_in inp.correlation_id env).0 ≡ ok true)
        × IsDueIn inp (ports.check_opt_in inp.correlation_id env).1
  unfolding remediate_allowed Said
  allowed_lem inp false env h = let never : ⊥ = ground (arith, h) in elim never [ ]
  allowed_lem inp true env h =
      let cid = inp.correlation_id in
      let (enabled, (opted, h1)) =
        attempt-reaches Said (ports.check_opt_in cid)
          (refused EnsureAccessOutcome.dependency_failure cid, none) (remediate_enabled ports inp)
          env (λ q. ground (arith, q)) h in
      let (is_true, due) = enabled_lem inp enabled (ports.check_opt_in cid env).1 h1 in
      (refl, rw (sym is_true) opted, due)

  -- The remediation says that access was issued only if all of this held, in this order: the actor
  -- was allowed, the mutation was opted in, the target was resolved to a user, that user's snapshot
  -- was active, the issuance's state was not OK, the mutation itself reported a new issuance, and
  -- the state read after it was OK.
  pub issued_is_due :
      (inp : AdminInput) (env : E)
      → SaysIssued (handle_ensure ports inp env).0
      → let cid = inp.correlation_id in
        let (allowed, env1) = ports.check_allowed inp.actor cid env in
        (allowed ≡ ok true)
        × ((ports.check_opt_in cid env1).0 ≡ ok true)
        × IsDueIn inp (ports.check_opt_in cid env1).1
  unfolding handle_ensure conclude Said
  issued_is_due inp env h =
      let cid = inp.correlation_id in
      elim (Result-cases (require_correlation_id cid)) [
        | inl (e, bad) ↦ let never : ⊥ = ground (arith, h, bad) in elim never [ ]
        | inr (c, good) ↦
            let (allowed, (checked, h1)) =
              attempt-reaches Said (ports.check_allowed inp.actor cid)
                (refused EnsureAccessOutcome.dependency_failure cid, none)
                (remediate_allowed ports inp) env (λ q. ground (arith, q))
                (ground (arith, h, good)) in
            let (is_true, opted, due) =
              allowed_lem inp allowed (ports.check_allowed inp.actor cid env).1 h1 in
            (rw (sym is_true) checked, opted, due)
      ]
