-- ===== src/Runtime/Loop.antt =====
-- backend/src/app/runtime/runner.py and live_loop.py: rounds of `poll_once`. The flag of
-- `LoopControl` is read from the surroundings, since any call may set it.
pub mod Ends
pub mod Raw
use startprojectformillion.Base.{
  ℕ, zero, suc, ◌+◌, ◌≤◌, ◌<◌, ◌≡◌, refl, Bool, true, false, Option, none, some, leb, nat_beq,
  arith, if◌then◌else◌, inl, inr, Bool-cases,
}
use startprojectformillion.Shared.{Exec, Result, ok, err, Result-cases, value_error}
use startprojectformillion.Shared.Validation.{ℤ, pos, negsuc}
use startprojectformillion.Runtime.Polling.{PollingBatchResult}
use startprojectformillion.Runtime.RawPolling.{RawPollingBatchResult}

pub record PollingRunSummary : Type 0 where
  pub iterations_requested : ℕ
  pub iterations_completed : ℕ
  pub received_count : ℕ
  pub send_count : ℕ
  pub noop_count : ℕ
  pub send_failure_count : ℕ
  pub processing_failure_count : ℕ
  pub fetch_failure_count : ℕ
  pub poll_once_exception_count : ℕ

abbrev pub empty_summary : PollingRunSummary
empty_summary = record {
  iterations_requested = 0;
  iterations_completed = 0;
  received_count = 0;
  send_count = 0;
  noop_count = 0;
  send_failure_count = 0;
  processing_failure_count = 0;
  fetch_failure_count = 0;
  poll_once_exception_count = 0;
}

-- `_empty_live_summary`
abbrev pub empty_live_summary : PollingRunSummary
empty_live_summary = empty_summary

-- What a round adds to the sums after a batch.
unfoldable pub add_batch : PollingRunSummary → PollingBatchResult → PollingRunSummary
add_batch s batch = record s {
  iterations_completed = s.iterations_completed + 1;
  received_count = s.received_count + batch.received_count;
  send_count = s.send_count + batch.send_count;
  noop_count = s.noop_count + batch.noop_count;
  send_failure_count = s.send_failure_count + batch.send_failure_count;
  processing_failure_count = s.processing_failure_count + batch.processing_failure_count;
  fetch_failure_count = s.fetch_failure_count + batch.fetch_failure_count;
}

-- `except Exception: exc_count += 1`
unfoldable pub add_exception : PollingRunSummary → PollingRunSummary
add_exception s = record s { poll_once_exception_count = s.poll_once_exception_count + 1 }

unfoldable pub add_result : PollingRunSummary → Result PollingBatchResult → PollingRunSummary
unfolding add_batch add_exception
add_result s (ok batch) = add_batch s batch
add_result s (err e) = add_exception s

-- `completed + exc_count`
abbrev pub started : PollingRunSummary → ℕ
started s = s.iterations_completed + s.poll_once_exception_count

-- The counters of a raw batch under the names of the summary.
unfoldable pub of_raw_batch : RawPollingBatchResult → PollingBatchResult
of_raw_batch batch = record {
  received_count = batch.raw_received_count;
  send_count = batch.send_count;
  noop_count = batch.noop_count;
  send_failure_count = batch.send_failure_count;
  processing_failure_count = batch.processing_failure_count;
  fetch_failure_count = batch.fetch_failure_count;
}

unfoldable pub of_raw_result : Result RawPollingBatchResult → Result PollingBatchResult
unfolding of_raw_batch
of_raw_result (ok batch) = ok (of_raw_batch batch)
of_raw_result (err e) = err e

-- `max_iterations is not None and (completed + exc_count) >= max_iterations`
abbrev pub limit_reached : Option ℕ → PollingRunSummary → Bool
limit_reached none s = false
limit_reached (some m) s = leb m (started s)

-- `started = completed + exc_count` and the summary returned
abbrev pub close_summary : PollingRunSummary → PollingRunSummary
close_summary s = record s { iterations_requested = started s }

abbrev pub close_loop :
    {E : Type 0} → E → Option (PollingRunSummary × E) → Option (Result PollingRunSummary × E)
close_loop env none = none
close_loop env (some (s, env')) = some (ok (close_summary s), env')

module _ {E : Type 0} (poll_once : Exec E PollingBatchResult) where
  -- `for _ in range(iterations)`
  unfoldable pub iterate : ℕ → PollingRunSummary → E → PollingRunSummary × E
  unfolding add_result
  iterate zero s env = (s, env)
  iterate (suc n) s env = let (r, env') = poll_once env in iterate n (add_result s r) env'

  -- `Slice1PollingRunner.run_iterations`
  unfoldable pub run_iterations : ℤ → Exec E PollingRunSummary
  unfolding iterate
  run_iterations (negsuc n) env = (err value_error, env)
  run_iterations (pos n) env =
      let (s, env') = iterate n empty_summary env in
      (ok (record s { iterations_requested = n }), env')

  module _ (stop_requested : E → Bool) where
    -- The `while` loop, with fuel; `none` means that the fuel ran out.
    unfoldable pub live_loop : ℕ → Option ℕ → PollingRunSummary → E → Option (PollingRunSummary × E)
    unfolding add_result
    live_loop zero limit s env = none
    live_loop (suc fuel) limit s env = elim (stop_requested env) [
      | true ↦ some (s, env)
      | false ↦ elim (limit_reached limit s) [
        | true ↦ some (s, env)
        | false ↦ let (r, env') = poll_once env in live_loop fuel limit (add_result s r) env'
      ]
    ]

    -- `run_until_stopped`; a negative limit is refused by `_validate_max_iterations`.
    unfoldable pub run_until_stopped : ℕ → Option ℤ → E → Option (Result PollingRunSummary × E)
    unfolding live_loop
    run_until_stopped fuel limit env =
        if stop_requested env then some (ok empty_live_summary, env) else elim limit [
          | none ↦ close_loop env (live_loop fuel none empty_summary env)
          | some (negsuc n) ↦ some (err value_error, env)
          | some (pos zero) ↦ some (ok empty_live_summary, env)
          | some (pos (suc n)) ↦ close_loop env (live_loop fuel (some (suc n)) empty_summary env)
        ]
