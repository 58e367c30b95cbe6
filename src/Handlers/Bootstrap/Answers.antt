-- ===== src/Handlers/Bootstrap/Answers.antt =====
-- What an answer of UC-01 holds, over any stores.
use startprojectformillion.Base.{String, true, none, is_some, ◌≡◌, ◌≢◌, ◌⊎◌, arith}
use startprojectformillion.Shared.{OperationOutcomeCategory}
use startprojectformillion.Handlers.Ports.{Stores}
use startprojectformillion.Handlers.Bootstrap.{
  BootstrapIdentityInput, BootstrapIdentityResult, bootstrap_failure, bootstrap_raised,
  put_default_snapshot_if_absent, bootstrap_replayed, bootstrap_created, bootstrap,
}

-- A success names the user and the key and no error; all else names an error and nothing more.
abbrev pub IsAnswer : BootstrapIdentityResult → Type 0
IsAnswer r =
    (r.outcome ≡ OperationOutcomeCategory.success)
      × (is_some r.internal_user_id ≡ true)
      × (is_some r.uc01_idempotency_key ≡ true)
      × (r.user_safe ≡ none)
    ⊎ (r.outcome ≢ OperationOutcomeCategory.success)
      × (r.internal_user_id ≡ none)
      × (r.uc01_idempotency_key ≡ none)
      × (is_some r.user_safe ≡ true)

module _ {E : Type 0} (stores : Stores E) (hexdigest : String → String) where
  -- Whatever the stores do, an answer of UC-01 is either a success, which names the user and the key
  -- and no error, or not a success, and then it names an error and neither the user nor the key. It
  -- carries the correlation id of the input.
  pub bootstrap_answers :
      (inp : BootstrapIdentityInput) (env : E)
      → let r = (bootstrap stores hexdigest inp env).0 in
        IsAnswer r × (r.correlation_id ≡ inp.correlation_id)
  unfolding bootstrap bootstrap_replayed bootstrap_created put_default_snapshot_if_absent
      bootstrap_raised bootstrap_failure
  bootstrap_answers inp env = ground arith
