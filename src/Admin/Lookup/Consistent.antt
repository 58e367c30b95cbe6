-- ===== src/Admin/Lookup/Consistent.antt =====
-- What the lookup says of a user's access agrees with what it shows.
use startprojectformillion.Base.{
  String, Bool, true, false, Option, none, some, ◌≡◌, ◌≢◌, ◌↔◌, refl, subst, eq_iff, inl, inr,
  arith,
}
use startprojectformillion.Shared.{Result-cases}
use startprojectformillion.Shared.Correlation.{require_correlation_id}
use startprojectformillion.Handlers.Ports.{SubscriptionSnapshot}
use startprojectformillion.Admin.Contracts.{
  AdminInput, SupportSubscriptionBucket, SupportAccessReadinessBucket, IssuanceOperationalState,
  SupportNextAction, subscription_bucket_from_snapshot, attempt-keeps,
}
use startprojectformillion.Admin.Lookup.{
  Adm01LookupOutcome, unread_summary, unreadable, without_summary, EntitlementSummaryCategory,
  AdminPolicyFlag, Adm01LookupSummary, Adm01LookupResult, LookupPorts, access_readiness_bucket,
  read_summary, redacted, look_up, look_up_allowed, handle_lookup,
}

-- Access is called ready exactly if the label of the shown snapshot is "active" and the shown issuance
-- is OK.
abbrev pub IsConsistent : Adm01LookupSummary → Type 0
IsConsistent s =
    (s.support_readiness.access_readiness_bucket ≡ SupportAccessReadinessBucket.active_access_ready)
    ↔ (((snap : SubscriptionSnapshot) × ((s.snapshot ≡ some snap) × (snap.state_label ≡ "active")))
        × (s.issuance ≡ IssuanceOperationalState.ok_state))

abbrev SummaryIsConsistent : Option Adm01LookupSummary → Type 0
SummaryIsConsistent none = Unit
SummaryIsConsistent (some s) = IsConsistent s

-- Only the label "active" makes the bucket ACTIVE.
active_lem :
    (snapshot : Option SubscriptionSnapshot)
    → subscription_bucket_from_snapshot snapshot ≡ SupportSubscriptionBucket.active
    → (snap : SubscriptionSnapshot) × ((snapshot ≡ some snap) × (snap.state_label ≡ "active"))
unfolding subscription_bucket_from_snapshot
active_lem none h = let never : ⊥ = ground (arith, h) in elim never [ ]
active_lem (some snap) h = (snap, (refl, ground (arith, h, eq_iff snap.state_label "active")))

bucket_of_active :
    (snapshot : Option SubscriptionSnapshot)
    → ((snap : SubscriptionSnapshot) × ((snapshot ≡ some snap) × (snap.state_label ≡ "active")))
    → subscription_bucket_from_snapshot snapshot ≡ SupportSubscriptionBucket.active
unfolding subscription_bucket_from_snapshot
bucket_of_active snapshot (snap, (shown, label)) = rw (shown, label) refl

bucket-ready :
    (bucket : SupportSubscriptionBucket) (issuance : IssuanceOperationalState)
    → (access_readiness_bucket bucket issuance ≡ SupportAccessReadinessBucket.active_access_ready)
      ↔ ((bucket ≡ SupportSubscriptionBucket.active)
          × (issuance ≡ IssuanceOperationalState.ok_state))
unfolding access_readiness_bucket
bucket-ready bucket issuance = ground arith

read-IsConsistent :
    (snapshot : Option SubscriptionSnapshot) (entitlement : EntitlementSummaryCategory)
    (issuance : IssuanceOperationalState) (flag : AdminPolicyFlag)
    → IsConsistent (read_summary snapshot entitlement issuance flag)
unfolding read_summary
read-IsConsistent snapshot entitlement issuance flag =
    let (to, from) = bucket-ready (subscription_bucket_from_snapshot snapshot) issuance in
    (
      λ ready. (active_lem snapshot (to ready).0, (to ready).1),
      λ h. from (bucket_of_active snapshot h.0, h.1),
    )

-- Of a result, whose summary may be missing.
abbrev Agrees : Adm01LookupResult → Type 0
Agrees result = SummaryIsConsistent result.summary

unread-IsConsistent :
    (known : Bool) (readiness : SupportAccessReadinessBucket) (next : SupportNextAction)
    → readiness ≢ SupportAccessReadinessBucket.active_access_ready
    → IsConsistent (unread_summary known readiness next)
unfolding subscription_bucket_from_snapshot
unread-IsConsistent known readiness next h = ground (arith, h)

module _ {E : Type 0} (ports : LookupPorts E) (plain : ports.redact ≡ none) where
  redacted-Agrees :
      (cid : String) (s : Adm01LookupSummary) (env : E)
      → IsConsistent s
      → Agrees (redacted ports cid s env).0
  unfolding redacted
  redacted-Agrees cid s env h = ground (arith, plain, h)

  look_up-Agrees :
      (cid : String) (user : Option String) (env : E) → Agrees (look_up ports cid user env).0
  unfolding look_up
  look_up-Agrees cid none env =
      unread-IsConsistent false SupportAccessReadinessBucket.not_applicable_no_active_subscription
        SupportNextAction.ask_user_to_use_status (λ h. ground (arith, h))
  look_up-Agrees cid (some user) env =
      let closed : Agrees (unreadable cid) =
        unread-IsConsistent true SupportAccessReadinessBucket.unknown_due_to_internal_error
          SupportNextAction.investigate_issuance (λ h. ground (arith, h)) in
      attempt-keeps Agrees (ports.get_subscription_snapshot user) (unreadable cid) _ env closed
        (λ snapshot env1.
          attempt-keeps Agrees (ports.get_entitlement_summary user) (unreadable cid) _ env1 closed
            (λ entitlement env2.
              attempt-keeps Agrees (ports.get_issuance_summary user) (unreadable cid) _ env2 closed
                (λ issuance env3.
                  attempt-keeps Agrees (ports.get_policy_flag user) (unreadable cid) _ env3 closed
                    (λ flag env4.
                      redacted-Agrees cid (read_summary snapshot entitlement issuance flag) env4
                        (read-IsConsistent snapshot entitlement issuance flag)))))

  allowed-Agrees :
      (inp : AdminInput) (allowed : Bool) (env : E)
      → Agrees (look_up_allowed ports inp allowed env).0
  unfolding look_up_allowed
  allowed-Agrees inp false env = tt
  allowed-Agrees inp true env =
      attempt-keeps Agrees (ports.resolve_internal_user_id inp.target inp.correlation_id)
        (without_summary Adm01LookupOutcome.dependency_failure inp.correlation_id) _ env tt
        (look_up-Agrees inp.correlation_id)

  handle-Agrees : (inp : AdminInput) (env : E) → Agrees (handle_lookup ports inp env).0
  unfolding handle_lookup
  handle-Agrees inp env =
      let checked =
        attempt-keeps Agrees (ports.check_allowed inp.actor inp.correlation_id)
          (without_summary Adm01LookupOutcome.dependency_failure inp.correlation_id)
          (look_up_allowed ports inp) env tt (allowed-Agrees inp) in
      elim (Result-cases (require_correlation_id inp.correlation_id)) [
        | inl (e, bad) ↦ ground (arith, bad)
        | inr (cid, good) ↦ ground (arith, good, checked)
      ]

  -- With no redaction, each summary that the lookup gives is consistent, whatever the reads return or
  -- raise: it calls access ready exactly if it shows a snapshot whose label is "active", with or
  -- without an end, and the issuance it shows is OK.
  pub lookup-IsConsistent :
      (inp : AdminInput) (env : E) (s : Adm01LookupSummary)
      → (handle_lookup ports inp env).0.summary ≡ some s
      → IsConsistent s
  lookup-IsConsistent inp env s h = subst SummaryIsConsistent h (handle-Agrees inp env)
