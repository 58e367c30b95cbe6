-- ===== src/Handlers/Bootstrap/Grants.antt =====
-- UC-01 over the stores in memory grants nobody anything.
use startprojectformillion.Base.{
  ℕ, String, none, some, ◌≡◌, ◌⊎◌, inl, inr, arith, eq_iff, nat_eq, string_eq, Option-cases,
}
use startprojectformillion.Shared.{Result-cases}
use startprojectformillion.Handlers.Ports.{SubscriptionSnapshot, build_bootstrap_idempotency_key}
use startprojectformillion.Handlers.Memory.{
  MemoryStores, memory_stores, find_by_telegram_user_id, create_if_absent, begin_or_get, complete,
  append, put_if_absent,
}
use startprojectformillion.Handlers.Bootstrap.{
  BootstrapIdentityInput, validate_bootstrap, put_default_snapshot_if_absent, bootstrap_replayed,
  bootstrap_created, bootstrap,
}

abbrev pub inactive_snapshot : String → SubscriptionSnapshot
inactive_snapshot user = record {
  internal_user_id = user;
  state_label = "inactive";
  active_until_utc = none;
}

-- A user's snapshot before and after.
abbrev pub Grants : MemoryStores → MemoryStores → String → Type 0
Grants m m' user =
    (m'.by_internal_user user ≡ m.by_internal_user user)
    ⊎ (m.by_internal_user user ≡ none) × (m'.by_internal_user user ≡ some (inactive_snapshot user))

put-Grants :
    (cid internal user : String) (m : MemoryStores)
    → Grants m (put_default_snapshot_if_absent memory_stores cid internal m).1 user
unfolding put_default_snapshot_if_absent put_if_absent
put-Grants cid internal user m = ground (arith, eq_iff internal user)

begin-keeps :
    (k : String) (m : MemoryStores) → (begin_or_get k m).1.by_internal_user ≡ m.by_internal_user
unfolding begin_or_get
begin-keeps k m = ground arith

replayed-Grants :
    (cid k user : String) (uid : ℕ) (m : MemoryStores)
    → Grants m (bootstrap_replayed memory_stores cid uid k m).1 user
unfolding bootstrap_replayed find_by_telegram_user_id
replayed-Grants cid k user uid m = elim (Option-cases (m.telegram_to_internal uid)) [
  | inl unknown ↦ ground arith
  | inr (internal, known) ↦ ground (arith, put-Grants cid internal user m)
]

created-Grants :
    (cid k user : String) (uid : ℕ) (m : MemoryStores)
    → Grants m (bootstrap_created memory_stores cid uid k m).1 user
unfolding bootstrap_created create_if_absent append complete
created-Grants cid k user uid m =
    let (created, m1) = create_if_absent uid m in
    elim (Result-cases created) [
      | inl (e, raised) ↦ ground (arith, raised)
      | inr (identity, back) ↦
          ground (arith, back, put-Grants cid identity.internal_user_id user m1)
    ]

module _ (hexdigest : String → String) where
  -- UC-01 leaves each user's snapshot as it was, or gives a user who had none an inactive one.
  pub bootstrap-Grants :
      (inp : BootstrapIdentityInput) (m : MemoryStores) (user : String)
      → Grants m (bootstrap memory_stores hexdigest inp m).1 user
  unfolding bootstrap
  bootstrap-Grants inp m user = elim (Result-cases (validate_bootstrap inp)) [
    | inl (e, invalid) ↦ ground (arith, invalid)
    | inr (uid, valid) ↦
        elim (Result-cases
          (build_bootstrap_idempotency_key hexdigest inp.telegram_user_id inp.telegram_update_id)) [
            | inl (e, unusable) ↦ ground (arith, valid, unusable)
            | inr (k, usable) ↦
                let m1 : MemoryStores = (begin_or_get k m).1 in
                ground (
                  arith,
                  valid,
                  usable,
                  begin-keeps k m,
                  replayed-Grants inp.correlation_id k user uid m1,
                  created-Grants inp.correlation_id k user uid m1,
                )
          ]
  ]
