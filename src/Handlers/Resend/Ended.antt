-- ===== src/Handlers/Resend/Ended.antt =====
-- What the best-effort revoke of an expired access does.
use startprojectformillion.Base.{
  String, true, false, Option, none, some, ◌≡◌, ◌⊎◌, inl, inr, arith, refl, Option-cases,
  Bool-cases,
}
use startprojectformillion.Shared.{Exec, Exception, Result, ok, err}
use startprojectformillion.Handlers.Status.{IssuanceCurrentStateRef}
use startprojectformillion.Handlers.Resend.{ResendParts, revoke_expired}

module _ {E : Type 0} (parts : ResendParts E) where
  -- The read found an issuance that was not revoked, and it is marked as revoked.
  abbrev pub IsRevokedNow : String → E → E → Type 0
  IsRevokedNow user env after =
      (get_current : String → Exec E (Option IssuanceCurrentStateRef)) × ((mark : String
          → String
          → Exec E Unit)
        × ((ref : IssuanceCurrentStateRef) × ((parts.issuance_state_lookup ≡ some get_current)
              × (parts.issuance_state_mutation ≡ some mark)
              × ((get_current user env).0 ≡ ok (some ref))
              × (ref.is_revoked ≡ false)
              × (after ≡ (mark user ref.issue_idempotency_key (get_current user env).1).1))))

  -- An answer of the read that leaves nothing to revoke.
  abbrev pub IsNoneToRevoke : Result (Option IssuanceCurrentStateRef) → Type 0
  IsNoneToRevoke answer =
      ((e : Exception) × (answer ≡ err e))
      ⊎ ((answer ≡ ok none)
          ⊎ ((ref : IssuanceCurrentStateRef) × ((answer ≡ ok (some ref))
                × (ref.is_revoked ≡ true))))

  -- The read found nothing to revoke, and nothing follows it.
  abbrev pub HasNoneToRevoke : String → E → E → Type 0
  HasNoneToRevoke user env after =
      (get_current : String → Exec E (Option IssuanceCurrentStateRef))
      × ((parts.issuance_state_lookup ≡ some get_current)
          × IsNoneToRevoke (get_current user env).0
          × (after ≡ (get_current user env).1))

  -- A part that reads or revokes an issuance is not configured, and nothing changes.
  abbrev pub CannotRevoke : E → E → Type 0
  CannotRevoke env after =
      ((parts.issuance_state_lookup ≡ none) ⊎ (parts.issuance_state_mutation ≡ none))
      × (after ≡ env)

  -- How the access of a user whose time has passed is ended.
  abbrev pub EndsAccess : String → E → E → Type 0
  EndsAccess user env after =
      IsRevokedNow user env after ⊎ (HasNoneToRevoke user env after ⊎ CannotRevoke env after)

  read-EndsAccess :
      (user : String) (env : E) (get_current : String → Exec E (Option IssuanceCurrentStateRef))
      (mark : String → String → Exec E Unit) (answer : Result (Option IssuanceCurrentStateRef))
      → parts.issuance_state_lookup ≡ some get_current
      → parts.issuance_state_mutation ≡ some mark
      → (get_current user env).0 ≡ answer
      → EndsAccess user env (revoke_expired parts user env)
  unfolding revoke_expired
  read-EndsAccess user env get_current mark (err e) read writes found =
      inr (inl (get_current, (read, inl (e, found), ground (arith, read, writes, found))))
  read-EndsAccess user env get_current mark (ok none) read writes found =
      inr (inl (get_current, (read, inr (inl found), ground (arith, read, writes, found))))
  read-EndsAccess user env get_current mark (ok (some ref)) read writes found =
      elim (Bool-cases ref.is_revoked) [
        | inl gone ↦ inr (
            inl (
              get_current,
              (read, inr (inr (ref, (found, gone))), ground (arith, read, writes, found, gone)),
            ))
        | inr live ↦ inl (
          get_current,
          (mark, (ref, (read, writes, found, live, ground (arith, read, writes, found, live)))),
        )
      ]

  pub revoke-EndsAccess :
      (user : String) (env : E) → EndsAccess user env (revoke_expired parts user env)
  unfolding revoke_expired
  revoke-EndsAccess user env = elim (Option-cases parts.issuance_state_lookup) [
    | inl unread ↦ inr (inr (inl unread, ground (arith, unread)))
    | inr (get_current, read) ↦ elim (Option-cases parts.issuance_state_mutation) [
      | inl unwritten ↦ inr (inr (inr unwritten, ground (arith, read, unwritten)))
      | inr (mark, writes) ↦
          read-EndsAccess user env get_current mark (get_current user env).0 read writes refl
    ]
  ]
