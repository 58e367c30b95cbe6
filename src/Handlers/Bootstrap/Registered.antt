-- ===== src/Handlers/Bootstrap/Registered.antt =====
-- UC-01 over the stores in memory, called again after it has succeeded.
use startprojectformillion.Base.{
  ℕ, String, true, none, some, is_some, ◌≡◌, ◌⊎◌, inl, inr, refl, arith, eq_refl, ==-refl, ap, ◌≢◌,
  sym, nat_eq, string_eq, Option-cases, str_nat, string_append,
}
use startprojectformillion.Shared.{ok, IsOk, Result-cases, OperationOutcomeCategory}
use startprojectformillion.Shared.Validation.{
  validate_telegram_user_id, validate_telegram_update_id,
}
use startprojectformillion.Shared.Correlation.{require_correlation_id}
use startprojectformillion.Handlers.Ports.{IdentityRecord, build_bootstrap_idempotency_key}
use startprojectformillion.Handlers.Memory.{
  MemoryStores, memory_stores, find_by_telegram_user_id, create_if_absent, begin_or_get,
  identity_of, complete, append, put_if_absent,
}
use startprojectformillion.Handlers.Bootstrap.{
  BootstrapIdentityInput, BootstrapIdentityResult, validate_bootstrap, bootstrap_failure,
  bootstrap_success, put_default_snapshot_if_absent, bootstrap_replayed, bootstrap_created,
  bootstrap,
}

-- The key is completed, the user is known by this id, and has a snapshot.
abbrev Settled : String → ℕ → String → MemoryStores → Type 0
Settled k uid internal m =
    (m.completed_by_key k ≡ some true)
    × (m.telegram_to_internal uid ≡ some internal)
    × (is_some (m.by_internal_user internal) ≡ true)

-- The answer names the user and the key, and the stores are settled for them.
abbrev Settles : String → ℕ → String → BootstrapIdentityResult × MemoryStores → Type 0
Settles k uid internal (r, m') =
    (r.internal_user_id ≡ some internal)
    × (r.uc01_idempotency_key ≡ some k)
    × Settled k uid internal m'

put-known :
    (cid internal : String) (m : MemoryStores)
    → let (failed, m') = put_default_snapshot_if_absent memory_stores cid internal m in
      (failed ≡ none)
      × (is_some (m'.by_internal_user internal) ≡ true)
      × (m'.completed_by_key ≡ m.completed_by_key)
      × (m'.telegram_to_internal ≡ m.telegram_to_internal)
unfolding put_default_snapshot_if_absent put_if_absent
put-known cid internal m = ground (arith, eq_refl internal)

-- A completed key without its user is a broken invariant.
replayed-unknown :
    (cid k : String) (uid : ℕ) (m : MemoryStores)
    → m.telegram_to_internal uid ≡ none
    → (bootstrap_replayed memory_stores cid uid k m).0.outcome ≢ OperationOutcomeCategory.success
unfolding bootstrap_replayed find_by_telegram_user_id bootstrap_failure
replayed-unknown cid k uid m unknown = ground (arith, unknown)

replayed-Settles :
    (cid k internal : String) (uid : ℕ) (m : MemoryStores)
    → m.completed_by_key k ≡ some true
    → m.telegram_to_internal uid ≡ some internal
    → Settles k uid internal (bootstrap_replayed memory_stores cid uid k m)
unfolding bootstrap_replayed find_by_telegram_user_id
replayed-Settles cid k internal uid m completed known =
    ground (arith, known, completed, put-known cid internal m)

created-Settles :
    (cid k internal : String) (uid : ℕ) (m m1 : MemoryStores)
    → create_if_absent uid m ≡ (ok (identity_of uid internal), m1)
    → m1.telegram_to_internal uid ≡ some internal
    → Settles k uid internal (bootstrap_created memory_stores cid uid k m)
unfolding bootstrap_created append complete
created-Settles cid k internal uid m m1 created known =
    ground (arith, created, known, eq_refl k, put-known cid internal m1)

create-known :
    (uid : ℕ) (m : MemoryStores)
    → (internal : String) × (let (r, m1) = create_if_absent uid m in
        (r ≡ ok (identity_of uid internal)) × (m1.telegram_to_internal uid ≡ some internal))
unfolding create_if_absent
create-known uid m = elim (Option-cases (m.telegram_to_internal uid)) [
  | inl unknown ↦
      let user = string_append "u" (str_nat uid) in (user, ground (arith, unknown, ==-refl uid))
  | inr (internal, known) ↦ (internal, ground (arith, known))
]

module _ (hexdigest : String → String) where
  -- UC-01 with a usable key goes on by what `begin_or_get` has returned.
  begin-cases :
      (inp : BootstrapIdentityInput) (m : MemoryStores) (k : String) (uid : ℕ)
      → validate_bootstrap inp ≡ ok uid
      → build_bootstrap_idempotency_key hexdigest inp.telegram_user_id inp.telegram_update_id ≡ ok k
      → let cid = inp.correlation_id in
        let m1 = (begin_or_get k m).1 in
        (m1.completed_by_key k ≡ some true)
          × (bootstrap memory_stores hexdigest inp m
              ≡ bootstrap_replayed memory_stores cid uid k m1)
        ⊎ (bootstrap memory_stores hexdigest inp m ≡ bootstrap_created memory_stores cid uid k m1)
  unfolding bootstrap begin_or_get
  begin-cases inp m k uid valid usable = ground (arith, valid, usable)

  second_bootstrap :
      (inp : BootstrapIdentityInput) (m : MemoryStores) (k internal : String) (uid : ℕ)
      → validate_bootstrap inp ≡ ok uid
      → build_bootstrap_idempotency_key hexdigest inp.telegram_user_id inp.telegram_update_id ≡ ok k
      → Settled k uid internal m
      → bootstrap memory_stores hexdigest inp m
        ≡ (bootstrap_success inp.correlation_id (identity_of uid internal) true k, m)
  unfolding bootstrap bootstrap_replayed put_default_snapshot_if_absent begin_or_get
      find_by_telegram_user_id put_if_absent
  second_bootstrap inp m k internal uid valid usable settled =
      ground (arith, valid, usable, settled)

  settled_replay :
      (inp : BootstrapIdentityInput) (m : MemoryStores) (k internal : String) (uid : ℕ)
      → validate_bootstrap inp ≡ ok uid
      → build_bootstrap_idempotency_key hexdigest inp.telegram_user_id inp.telegram_update_id ≡ ok k
      → Settles k uid internal (bootstrap memory_stores hexdigest inp m)
      → let (r, m') = bootstrap memory_stores hexdigest inp m in
        let (again, m2) = bootstrap memory_stores hexdigest inp m' in
        (again.outcome ≡ OperationOutcomeCategory.success)
        × (again.idempotent_replay ≡ true)
        × (again.internal_user_id ≡ r.internal_user_id)
        × (again.uc01_idempotency_key ≡ r.uc01_idempotency_key)
        × (m2 ≡ m')
  settled_replay inp m k internal uid valid usable settles =
      let m' : MemoryStores = (bootstrap memory_stores hexdigest inp m).1 in
      let same = second_bootstrap inp m' k internal uid valid usable settles.2 in
      (rw same refl, rw same refl, rw same (sym settles.0), rw same (sym settles.1), rw same refl)

  usable-Settles :
      (inp : BootstrapIdentityInput) (m : MemoryStores) (k : String) (uid : ℕ)
      → validate_bootstrap inp ≡ ok uid
      → build_bootstrap_idempotency_key hexdigest inp.telegram_user_id inp.telegram_update_id ≡ ok k
      → (bootstrap memory_stores hexdigest inp m).0.outcome ≡ OperationOutcomeCategory.success
      → (internal : String) × Settles k uid internal (bootstrap memory_stores hexdigest inp m)
  usable-Settles inp m k uid valid usable h =
      let cid = inp.correlation_id in
      let m1 : MemoryStores = (begin_or_get k m).1 in
      elim (begin-cases inp m k uid valid usable) [
        | inl (completed, replayed) ↦ elim (Option-cases (m1.telegram_to_internal uid)) [
          | inl unknown ↦ elim (replayed-unknown cid k uid m1 unknown (rw (sym replayed) h)) [ ]
          | inr (internal, known) ↦
              (internal, rw replayed (replayed-Settles cid k internal uid m1 completed known))
        ]
        | inr created ↦
            let (internal, (made, known)) = create-known uid m1 in
            (
              internal,
              rw created (
                  created-Settles cid k internal uid m1 (create_if_absent uid m1).1
                    (ap (λ r. (r, (create_if_absent uid m1).1)) made) known),
            )
      ]

  usable_replay :
      (inp : BootstrapIdentityInput) (m : MemoryStores) (k : String) (uid : ℕ)
      → validate_bootstrap inp ≡ ok uid
      → build_bootstrap_idempotency_key hexdigest inp.telegram_user_id inp.telegram_update_id ≡ ok k
      → (bootstrap memory_stores hexdigest inp m).0.outcome ≡ OperationOutcomeCategory.success
      → let (r, m') = bootstrap memory_stores hexdigest inp m in
        let (again, m2) = bootstrap memory_stores hexdigest inp m' in
        (again.outcome ≡ OperationOutcomeCategory.success)
        × (again.idempotent_replay ≡ true)
        × (again.internal_user_id ≡ r.internal_user_id)
        × (again.uc01_idempotency_key ≡ r.uc01_idempotency_key)
        × (m2 ≡ m')
  usable_replay inp m k uid valid usable h =
      let (internal, settles) = usable-Settles inp m k uid valid usable h in
      settled_replay inp m k internal uid valid usable settles

  -- After UC-01 has succeeded, the same input again succeeds as a replay, with the same user and key,
  -- and changes nothing in the stores: no second audit event, user, or snapshot.
  pub bootstrap_replay :
      (inp : BootstrapIdentityInput) (m : MemoryStores)
      → (bootstrap memory_stores hexdigest inp m).0.outcome ≡ OperationOutcomeCategory.success
      → let (r, m') = bootstrap memory_stores hexdigest inp m in
        let (again, m2) = bootstrap memory_stores hexdigest inp m' in
        (again.outcome ≡ OperationOutcomeCategory.success)
        × (again.idempotent_replay ≡ true)
        × (again.internal_user_id ≡ r.internal_user_id)
        × (again.uc01_idempotency_key ≡ r.uc01_idempotency_key)
        × (m2 ≡ m')
  unfolding bootstrap
  bootstrap_replay inp m h = elim (Result-cases (validate_bootstrap inp)) [
    | inl (e, invalid) ↦ ground (arith, invalid, h)
    | inr (uid, valid) ↦
        elim (Result-cases
          (build_bootstrap_idempotency_key hexdigest inp.telegram_user_id inp.telegram_update_id)) [
            | inl (e, unusable) ↦ ground (arith, valid, unusable, h)
            | inr (k, usable) ↦ usable_replay inp m k uid valid usable h
          ]
  ]

  same_user :
      (inp again : BootstrapIdentityInput) (uid : ℕ)
      → again.telegram_user_id ≡ inp.telegram_user_id
      → again.telegram_update_id ≡ inp.telegram_update_id
      → IsOk (require_correlation_id again.correlation_id)
      → validate_bootstrap inp ≡ ok uid
      → validate_bootstrap again ≡ ok uid
  unfolding validate_bootstrap
  same_user inp again uid user event cid valid =
      elim (Result-cases (require_correlation_id again.correlation_id)) [
        | inl (e, bad) ↦ ground (arith, cid, bad)
        | inr (c, good) ↦ elim (Result-cases (validate_telegram_user_id inp.telegram_user_id)) [
          | inl (e, bad) ↦ ground (arith, valid, bad)
          | inr (n, known) ↦
              elim (Result-cases (validate_telegram_update_id inp.telegram_update_id)) [
                | inl (e, bad) ↦ ground (arith, valid, known, bad)
                | inr (u, numbered) ↦ ground (
                  arith,
                  valid,
                  good,
                  known,
                  numbered,
                  ap validate_telegram_user_id user,
                  ap validate_telegram_update_id event,
                )
              ]
        ]
      ]

  -- After UC-01 has succeeded, an input with the same two ids and a valid correlation id of its own
  -- succeeds as a replay with the same key, and the stores stay as they are.
  pub bootstrap_again :
      (inp again : BootstrapIdentityInput) (m : MemoryStores)
      → again.telegram_user_id ≡ inp.telegram_user_id
      → again.telegram_update_id ≡ inp.telegram_update_id
      → IsOk (require_correlation_id again.correlation_id)
      → (bootstrap memory_stores hexdigest inp m).0.outcome ≡ OperationOutcomeCategory.success
      → let (r, m') = bootstrap memory_stores hexdigest inp m in
        (k : String) × ((identity : IdentityRecord) × ((r.uc01_idempotency_key ≡ some k)
            × (bootstrap memory_stores hexdigest again m'
                ≡ (bootstrap_success again.correlation_id identity true k, m'))))
  unfolding bootstrap
  bootstrap_again inp again m user event cid h = elim (Result-cases (validate_bootstrap inp)) [
    | inl (e, invalid) ↦ let never : ⊥ = ground (arith, invalid, h) in elim never [ ]
    | inr (uid, valid) ↦
        elim (Result-cases
          (build_bootstrap_idempotency_key hexdigest inp.telegram_user_id inp.telegram_update_id)) [
            | inl (e, unusable) ↦
                let never : ⊥ = ground (arith, valid, unusable, h) in elim never [ ]
            | inr (k, usable) ↦
                let (internal, settles) = usable-Settles inp m k uid valid usable h in
                (
                  k,
                  (
                    identity_of uid internal,
                    (
                      settles.1,
                      second_bootstrap again (bootstrap memory_stores hexdigest inp m).1 k internal
                          uid (same_user inp again uid user event cid valid)
                          (rw (user, event) usable) settles.2,
                    ),
                  ),
                )
          ]
  ]
