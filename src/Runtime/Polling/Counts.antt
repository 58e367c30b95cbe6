-- ===== src/Runtime/Polling/Counts.antt =====
-- Every update of a batch is counted once.
use startprojectformillion.Base.{ℕ, zero, suc, ◌+◌, ◌≤◌, List, [], ◌∷◌, length, take, arith}
use startprojectformillion.Runtime.Polling.{
  PollingPorts, Counters, process_update, process_loop, process_batch,
}

length-take-le :
    {A : Type 0} (n : ℕ) (xs : List A) → (length (take n xs) ≤ n) × (length (take n xs) ≤ length xs)
length-take-le zero xs = (omega arith, omega arith)
length-take-le (suc n) [] = (omega arith, omega arith)
length-take-le (suc n) (x ∷ xs) =
    let ih = length-take-le n xs in (omega (arith, ih.0), omega (arith, ih.1))

-- The updates that were counted as no reply, as a failed send or as a failed processing.
abbrev pub others : Counters → ℕ
others c = c.noop + c.send_fail + c.process_fail

module _ {E U M : Type 0} (ports : PollingPorts E U M) (max_updates_per_batch : ℕ) where
  update_counted :
      (u : U) (c : Counters) (env : E)
      → others (process_update ports max_updates_per_batch u c env).0 ≤ others c + 1
  unfolding process_update
  update_counted u c env = ground arith

  loop_counted :
      (us : List U) (c : Counters) (env : E)
      → others (process_loop ports max_updates_per_batch us c env).0 ≤ others c + length us
  unfolding process_loop
  loop_counted [] c env = omega arith
  loop_counted (u ∷ us) c env =
      let (c', env') = process_update ports max_updates_per_batch u c env in
      omega (arith, loop_counted us c' env', update_counted u c env)

  -- A batch never counts more than the limit, nor than it was given; and of the updates that it
  -- counts, those with no reply, with a failed send and with a failed processing are at most all.
  pub batch_counts :
      (updates : List U) (env : E)
      → let result = (process_batch ports max_updates_per_batch updates env).0 in
        (result.received_count ≤ max_updates_per_batch)
        × (result.received_count ≤ length updates)
        × (result.noop_count + result.send_failure_count + result.processing_failure_count
            ≤ result.received_count)
  unfolding process_batch
  batch_counts updates env =
      let bound = length-take-le max_updates_per_batch updates in
      (
        bound.0,
        bound.1,
        omega (
          arith,
          loop_counted (take max_updates_per_batch updates)
              (record { send_ok = 0; noop = 0; send_fail = 0; process_fail = 0 }) env,
        ),
      )
