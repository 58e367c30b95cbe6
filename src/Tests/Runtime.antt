-- ===== src/Tests/Runtime.antt =====
-- The runtime over a client that counts its sends.
use startprojectformillion.Base.{
  ℕ, zero, suc, ◌+◌, ◌≤◌, ◌<◌, false, Option, none, some, List, [], ◌∷◌, ◌≡◌, refl, arith, length,
  leb,
}
use startprojectformillion.Shared.{Exec, Result, ok}
use startprojectformillion.Shared.Validation.{ℤ, pos}
use startprojectformillion.Runtime.Offsets.{UpdateField}
use startprojectformillion.Runtime.Polling.{
  TelegramRuntimeAction, TelegramRuntimeActionKind, PollingPorts, PollingBatchResult, process_batch,
}
use startprojectformillion.Runtime.Polling.Counts.{batch_counts}
use startprojectformillion.Runtime.RawPolling.{RawRuntime}
use startprojectformillion.Runtime.Loop.{PollingRunSummary, run_until_stopped}
use startprojectformillion.Runtime.Loop.Ends.{after, bounded_run, unbounded_run}
use startprojectformillion.Runtime.Loop.Raw.{Keeps, raw_round, raw_run}

-- Every update is answered with a text.
abbrev reply : ℕ → TelegramRuntimeAction ℕ
reply chat = record {
  kind = TelegramRuntimeActionKind.send_message;
  correlation_id = "";
  chat_id = some chat;
  message_text = some "hello";
  action_keys = [];
  reply_markup = none;
  uc01_idempotency_key = none;
  follow_ups = [];
}

abbrev ports : PollingPorts ℕ ℕ ℕ
ports = record {
  to_runtime_action = λ u sends. (ok (reply u), sends);
  ensure_pending = λ k sends. (ok tt, sends);
  mark_sent = λ k id sends. (ok tt, sends);
  send_text_message = λ chat text cid markup sends. (ok sends, sends + 1);
  fetch_updates = λ limit sends. (ok (1 ∷ 2 ∷ []), sends);
}

abbrev fetch_raw : ℕ → Option ℤ → Exec ℕ (List ℕ)
fetch_raw limit offset sends = (ok (41 ∷ 43 ∷ []), sends)

abbrev inspect : ℕ → UpdateField
inspect id = UpdateField.update_id (pos id)

abbrev bridge : ℕ → Result (Option ℕ)
bridge id = ok (some id)

abbrev runtime : RawRuntime ℕ
runtime = record { current_offset = some (pos 40); env = 0 }

abbrev round : Exec ℕ PollingBatchResult
round n = (
  ok (record {
    received_count = 1;
    send_count = 1;
    noop_count = 0;
    send_failure_count = 0;
    processing_failure_count = 0;
    fetch_failure_count = 0;
  }),
  n + 1,
)

abbrev two : List ℕ
two = 41 ∷ 43 ∷ []

batch_counts_run :
    let result = (process_batch ports 1 two 0).0 in
    (result.received_count ≤ 1)
    × (result.received_count ≤ length two)
    × (result.noop_count + result.send_failure_count + result.processing_failure_count
        ≤ result.received_count)
batch_counts_run = batch_counts ports 1 two 0

raw_run_example :
    (summary : PollingRunSummary) × (s' : RawRuntime ℕ) × (run_until_stopped
        (raw_round ports fetch_raw inspect bridge 2)
        (λ s. false)
        4
        (some (pos 3))
        runtime
      ≡ some (ok summary, s'))
    × Keeps (some (pos 40)) summary s'
raw_run_example = raw_run ports fetch_raw inspect bridge 2 (λ s. false) 3 runtime (omega arith)

bounded_run_example :
    (s : PollingRunSummary) × (env' : ℕ) × (run_until_stopped round (leb 2) 6 (some (pos 5)) 0
      ≡ some (ok s, env'))
    × (s.iterations_requested ≤ 5)
    × (s.iterations_completed + s.poll_once_exception_count ≡ s.iterations_requested)
bounded_run_example = bounded_run round (leb 2) 5 0

-- The flag is up from 2 rounds on.
down_before_two : (j : ℕ) → j < 2 → leb 2 (after round j 0) ≡ false
down_before_two zero h = refl
down_before_two (suc zero) h = refl
down_before_two (suc (suc j)) h = absurd (omega arith)

unbounded_run_run :
    (s : PollingRunSummary) × (run_until_stopped round (leb 2) 3 none 0
      ≡ some (ok s, after round 2 0))
    × (s.iterations_requested ≡ 2)
unbounded_run_run = unbounded_run round (leb 2) 2 0 down_before_two refl
