-- ===== src/Runtime/RawPolling.antt =====
-- backend/src/app/runtime/raw_polling.py and binding.py: raw updates, the bridge, and the offset.
use startprojectformillion.Base.{
  ℕ, ◌≤◌, ◌≡◌, refl, Option, List, [], ◌∷◌, length, map, arith, inl, inr,
}
use startprojectformillion.Shared.{Exec, Result, ok, err, Result-cases}
use startprojectformillion.Shared.Validation.{ℤ}
use startprojectformillion.Runtime.Offsets.{UpdateField, advance_polling_offset}
use startprojectformillion.Runtime.Offsets.Laws.{IsOffset, offset_value, advance_polling_offset_lem}
use startprojectformillion.Runtime.Bridge.{bridge_runtime_updates}
use startprojectformillion.Runtime.Polling.{PollingPorts, process_batch}

pub record RawPollingBatchResult : Type 0 where
  pub raw_received_count : ℕ
  pub bridge_accepted_count : ℕ
  pub bridge_rejected_count : ℕ
  pub bridge_exception_count : ℕ
  pub send_count : ℕ
  pub noop_count : ℕ
  pub send_failure_count : ℕ
  pub processing_failure_count : ℕ
  pub fetch_failure_count : ℕ

-- The runtime object with its surroundings.
pub record RawRuntime (E : Type 0) : Type 0 where
  pub current_offset : Option ℤ
  pub env : E

-- A raw update is a value of `R`; `inspect` is what the offset code sees of it.
module _ {E R U M : Type 0} (ports : PollingPorts E U M)
    (fetch_raw_updates : ℕ → Option ℤ → Exec E (List R)) (inspect : R → UpdateField)
    (bridge : R → Result (Option U)) (max_updates_per_batch : ℕ) where
  -- backend/src/app/runtime/binding.py
  unfoldable pub process_raw_updates_with_bridge : List R → E → RawPollingBatchResult × E
  unfolding bridge_runtime_updates
  process_raw_updates_with_bridge raws env =
      let bridged = bridge_runtime_updates bridge raws in
      elim bridged.accepted_updates [
        | [] ↦ (
          record {
            raw_received_count = length raws;
            bridge_accepted_count = bridged.accepted_count;
            bridge_rejected_count = bridged.rejected_count;
            bridge_exception_count = bridged.bridge_exception_count;
            send_count = 0;
            noop_count = 0;
            send_failure_count = 0;
            processing_failure_count = 0;
            fetch_failure_count = 0;
          },
          env,
        )
        | u ∷ us ↦
            let (batch, env') = process_batch ports max_updates_per_batch (u ∷ us) env in
            (
              record {
                raw_received_count = length raws;
                bridge_accepted_count = bridged.accepted_count;
                bridge_rejected_count = bridged.rejected_count;
                bridge_exception_count = bridged.bridge_exception_count;
                send_count = batch.send_count;
                noop_count = batch.noop_count;
                send_failure_count = batch.send_failure_count;
                processing_failure_count = batch.processing_failure_count;
                fetch_failure_count = 0;
              },
              env',
            )
      ]

  abbrev pub fetch_failed : RawPollingBatchResult
  fetch_failed = record {
    raw_received_count = 0;
    bridge_accepted_count = 0;
    bridge_rejected_count = 0;
    bridge_exception_count = 0;
    send_count = 0;
    noop_count = 0;
    send_failure_count = 0;
    processing_failure_count = 0;
    fetch_failure_count = 1;
  }

  -- `advance_polling_offset` may raise, and then so does `poll_once`.
  unfoldable pub poll_raw_once : Exec (RawRuntime E) RawPollingBatchResult
  unfolding process_raw_updates_with_bridge
  poll_raw_once s =
      let (r, env1) = fetch_raw_updates max_updates_per_batch s.current_offset s.env in
      elim r [
        | err e ↦ (ok fetch_failed, record s { env = env1 })
        | ok raws ↦ elim (advance_polling_offset s.current_offset (map inspect raws)) [
          | err e ↦ (err e, record s { env = env1 })
          | ok next ↦
              let (result, env2) = process_raw_updates_with_bridge raws env1 in
              (ok result, record { current_offset = next; env = env2 })
        ]
      ]

  -- From an offset that the program can hold, `poll_once` does not raise, and the offset after it is
  -- one that the program can hold and not below the one before.
  pub poll_raw_once-IsOffset :
      (s : RawRuntime E)
      → IsOffset s.current_offset
      → let (r, s') = poll_raw_once s in
        ((result : RawPollingBatchResult) × (r ≡ ok result))
        × IsOffset s'.current_offset
        × (offset_value s.current_offset ≤ offset_value s'.current_offset)
  unfolding poll_raw_once
  poll_raw_once-IsOffset s h =
      elim (Result-cases (fetch_raw_updates max_updates_per_batch s.current_offset s.env).0) [
        | inl (e, raised) ↦ rw (raised, poll_raw_once) ((fetch_failed, refl), h, omega arith)
        | inr (raws, fetched) ↦
            let (next, moved, advances) =
              advance_polling_offset_lem s.current_offset (map inspect raws) h in
            rw (fetched, moved, poll_raw_once) ((_, refl), advances.is_offset, advances.grows)
      ]
