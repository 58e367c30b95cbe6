-- ===== src/Handlers/Memory.antt =====
-- The repositories of backend/src/app/persistence/in_memory.py that UC-01 and UC-02 use. Each method
-- runs under its lock, so it is one step; none raises.
use startprojectformillion.Base.{
  ℕ, String, Bool, true, false, Option, none, some, map_option, if◌then◌else◌, List, [], ◌∷◌, ◌++◌,
  Dict, put, empty, contains, str_nat, string_append, nat_eq, string_eq, pair_eq,
}
use startprojectformillion.Shared.{Exec, ok}
use startprojectformillion.Handlers.Ports.{
  IdentityRecord, IdempotencyRecord, SubscriptionSnapshot, AuditEvent, Stores,
}

pub record MemoryStores : Type 0 where
  pub telegram_to_internal : Dict ℕ String
  pub completed_by_key : Dict String Bool
  pub by_internal_user : Dict String SubscriptionSnapshot
  pub events : List AuditEvent

abbrev pub no_stores : MemoryStores
no_stores = record {
  telegram_to_internal = empty;
  completed_by_key = empty;
  by_internal_user = empty;
  events = [];
}

abbrev pub identity_of : ℕ → String → IdentityRecord
identity_of telegram_user_id internal = record {
  internal_user_id = internal;
  telegram_user_id = telegram_user_id;
}

unfoldable pub find_by_telegram_user_id : ℕ → Exec MemoryStores (Option IdentityRecord)
find_by_telegram_user_id telegram_user_id m =
    (ok (map_option (identity_of telegram_user_id) (m.telegram_to_internal telegram_user_id)), m)

unfoldable pub create_if_absent : ℕ → Exec MemoryStores IdentityRecord
unfolding str_nat
create_if_absent telegram_user_id m = elim (m.telegram_to_internal telegram_user_id) [
  | some existing ↦ (ok (identity_of telegram_user_id existing), m)
  | none ↦
      let internal_user_id = string_append "u" (str_nat telegram_user_id) in
      (
        ok (identity_of telegram_user_id internal_user_id),
        record m {
          telegram_to_internal = put m.telegram_to_internal telegram_user_id internal_user_id;
        },
      )
]

abbrev idempotency_record : String → Bool → IdempotencyRecord
idempotency_record k done = record { key = k; completed = done }

unfoldable pub begin_or_get : String → Exec MemoryStores IdempotencyRecord
begin_or_get k m = elim (m.completed_by_key k) [
  | some done ↦ (ok (idempotency_record k done), m)
  | none ↦ (
    ok (idempotency_record k false),
    record m { completed_by_key = put m.completed_by_key k false },
  )
]

unfoldable pub complete : String → Exec MemoryStores Unit
complete k m = (ok tt, record m { completed_by_key = put m.completed_by_key k true })

unfoldable pub append : AuditEvent → Exec MemoryStores Unit
append event m = (ok tt, record m { events = m.events ++ event ∷ [] })

unfoldable pub get_for_user : String → Exec MemoryStores (Option SubscriptionSnapshot)
get_for_user internal_user_id m = (ok (m.by_internal_user internal_user_id), m)

unfoldable pub put_if_absent : SubscriptionSnapshot → Exec MemoryStores Unit
put_if_absent snapshot m =
    if contains m.by_internal_user snapshot.internal_user_id then (ok tt, m) else (
      ok tt,
      record m { by_internal_user = put m.by_internal_user snapshot.internal_user_id snapshot },
    )

abbrev pub memory_stores : Stores MemoryStores
memory_stores = record {
  find_by_telegram_user_id = find_by_telegram_user_id;
  create_if_absent = create_if_absent;
  begin_or_get = begin_or_get;
  complete = complete;
  append = append;
  get_for_user = get_for_user;
  put_if_absent = put_if_absent;
}
