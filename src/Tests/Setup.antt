-- ===== src/Tests/Setup.antt =====
-- A provider that counts its calls, a database, and requests of one user.
use startprojectformillion.Base.{ℕ, ◌+◌, Option, none, some, []}
use startprojectformillion.Shared.{ok, SubscriptionSnapshotState}
use startprojectformillion.Shared.Correlation.{sample_id}
use startprojectformillion.Issuance.Contracts.{
  IssuanceOperationType, IssuanceRequest, IssuanceProviderPort, IssuanceOperationalStatePort,
  CreateAccessOutcome, RevokeAccessOutcome, GetSafeInstructionOutcome,
}
use startprojectformillion.Issuance.Memory.{World, fresh}
use startprojectformillion.Persistence.IssuanceState.{Db}
use startprojectformillion.Durable.{Surroundings, postgres_store, apart}

-- Each call succeeds and is counted.
abbrev pub counting : IssuanceProviderPort ℕ
counting = record {
  create_or_ensure_access = λ user key cid calls. (
    ok (record { outcome = CreateAccessOutcome.success; issuance_ref = some "ref-1" }),
    calls + 1,
  );
  revoke_access =
      λ user ref key cid calls. (ok (record { outcome = RevokeAccessOutcome.revoked }), calls + 1);
  get_safe_delivery_instructions = λ user ref cid calls. (
    ok (record { outcome = GetSafeInstructionOutcome.ready; instruction_ref = some "how-to" }),
    calls + 1,
  );
}

abbrev pub provider : IssuanceProviderPort (Surroundings ℕ)
provider = apart counting

abbrev pub store : Option (IssuanceOperationalStatePort (Surroundings ℕ))
store = some postgres_store

abbrev pub empty_db : Db
empty_db = record { rows = []; now = 100; faults = [] }

abbrev pub start : World (Surroundings ℕ)
start = record { env = record { db = empty_db; outside = 0 }; service = fresh }

abbrev pub issue_request : IssuanceRequest
issue_request = record {
  internal_user_id = "u7";
  subscription_state = some SubscriptionSnapshotState.active;
  operation = IssuanceOperationType.issue;
  idempotency_key = "issue-1";
  correlation_id = sample_id;
  link_issue_idempotency_key = none;
}

abbrev pub resend_request : IssuanceRequest
resend_request = record {
  internal_user_id = "u7";
  subscription_state = some SubscriptionSnapshotState.active;
  operation = IssuanceOperationType.resend;
  idempotency_key = "resend-1";
  correlation_id = sample_id;
  link_issue_idempotency_key = some "issue-1";
}

abbrev pub revoke_request : IssuanceRequest
revoke_request = record {
  internal_user_id = "u7";
  subscription_state = some SubscriptionSnapshotState.active;
  operation = IssuanceOperationType.revoke;
  idempotency_key = "revoke-1";
  correlation_id = sample_id;
  link_issue_idempotency_key = some "issue-1";
}
