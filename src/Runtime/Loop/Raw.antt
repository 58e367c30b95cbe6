-- ===== src/Runtime/Loop/Raw.antt =====
-- The loop over raw polling: no round raises, and the offset only grows.
use startprojectformillion.Base.{
  ℕ, zero, suc, ◌≤◌, ◌≡◌, refl, Bool, Option, none, some, List, arith, inl, inr, Bool-cases,
}
use startprojectformillion.Shared.{Exec, Result, ok, err}
use startprojectformillion.Shared.Validation.{ℤ, pos}
use startprojectformillion.Runtime.Offsets.{UpdateField}
use startprojectformillion.Runtime.Offsets.Laws.{IsOffset, offset_value}
use startprojectformillion.Runtime.Polling.{PollingPorts, PollingBatchResult}
use startprojectformillion.Runtime.RawPolling.{RawRuntime, poll_raw_once, poll_raw_once-IsOffset}
use startprojectformillion.Runtime.Loop.{
  PollingRunSummary, add_result, live_loop, of_raw_result, limit_reached, close_loop, empty_summary,
  run_until_stopped,
}
use startprojectformillion.Runtime.Loop.Ends.{bounded_run}

-- What the loop keeps: an offset that the program can hold, not below the first, and no round that
-- raised.
pub record Keeps {E : Type 0} (first : Option ℤ) (summary : PollingRunSummary) (s : RawRuntime E)
    : Type 0 where
  pub is_offset : IsOffset s.current_offset
  pub grows : offset_value first ≤ offset_value s.current_offset
  pub none_raised : summary.poll_once_exception_count ≡ 0

abbrev EndsWell : {E : Type 0} → Option ℤ → Option (PollingRunSummary × RawRuntime E) → Type 0
EndsWell first none = Unit
EndsWell first (some (summary, s)) = Keeps first summary s

abbrev RunEndsWell :
    {E : Type 0} → Option ℤ → Option (Result PollingRunSummary × RawRuntime E) → Type 0
RunEndsWell first none = Unit
RunEndsWell first (some (err e, s)) = ⊥
RunEndsWell first (some (ok summary, s)) = Keeps first summary s

closed :
    {E : Type 0} (first : Option ℤ) (start : RawRuntime E)
    (o : Option (PollingRunSummary × RawRuntime E))
    → EndsWell first o
    → RunEndsWell first (close_loop start o)
closed first start none w = tt
closed first start (some (summary, s)) w = record {
  is_offset = w.is_offset;
  grows = w.grows;
  none_raised = w.none_raised;
}

module _ {E R U M : Type 0} (ports : PollingPorts E U M)
    (fetch_raw_updates : ℕ → Option ℤ → Exec E (List R)) (inspect : R → UpdateField)
    (bridge : R → Result (Option U)) (max_updates_per_batch : ℕ) where
  -- A round of `Slice1LiveRawPollingLoop`.
  abbrev pub raw_round : Exec (RawRuntime E) PollingBatchResult
  raw_round s =
      let (r, s') = poll_raw_once ports fetch_raw_updates inspect bridge max_updates_per_batch s in
      (of_raw_result r, s')

  round-Keeps :
      (first : Option ℤ) (summary : PollingRunSummary) (s : RawRuntime E)
      → Keeps first summary s
      → let (r, s') = raw_round s in Keeps first (add_result summary r) s'
  unfolding add_result of_raw_result
  round-Keeps first summary s k =
      let ((result, returned), is_offset, grows) =
        poll_raw_once-IsOffset ports fetch_raw_updates inspect bridge max_updates_per_batch s
          k.is_offset in
      record {
        is_offset = is_offset;
        grows = omega (arith, grows, k.grows);
        none_raised = rw returned k.none_raised;
      }

  loop-EndsWell :
      (stop_requested : RawRuntime E → Bool) (fuel : ℕ) (limit : Option ℕ) (first : Option ℤ)
      (summary : PollingRunSummary) (s : RawRuntime E)
      → Keeps first summary s
      → EndsWell first (live_loop raw_round stop_requested fuel limit summary s)
  unfolding live_loop
  loop-EndsWell stop zero limit first summary s k = tt
  loop-EndsWell stop (suc fuel) limit first summary s k = elim (Bool-cases (stop s)) [
    | inl stopped ↦ rw (stopped, live_loop) k
    | inr go ↦ elim (Bool-cases (limit_reached limit summary)) [
      | inl full ↦ rw (go, full, live_loop) k
      | inr room ↦
          let (r, s') = raw_round s in
          rw (go, room, live_loop)
            (loop-EndsWell stop fuel limit first (add_result summary r) s'
              (round-Keeps first summary s k))
    ]
  ]

  run-EndsWell :
      (stop_requested : RawRuntime E → Bool) (fuel m : ℕ) (s : RawRuntime E)
      → IsOffset s.current_offset
      → RunEndsWell s.current_offset
          (run_until_stopped raw_round stop_requested fuel (some (pos m)) s)
  unfolding run_until_stopped
  run-EndsWell stop fuel zero s h = elim (Bool-cases (stop s)) [
    | inl stopped ↦ rw stopped (record { is_offset = h; grows = omega arith; none_raised = refl })
    | inr go ↦ rw go (record { is_offset = h; grows = omega arith; none_raised = refl })
  ]
  run-EndsWell stop fuel (suc m) s h =
      let k : Keeps s.current_offset empty_summary s = record {
        is_offset = h;
        grows = omega arith;
        none_raised = refl;
      } in
      let well = loop-EndsWell stop fuel (some (suc m)) s.current_offset empty_summary s k in
      elim (Bool-cases (stop s)) [
        | inl stopped ↦
            rw stopped (record { is_offset = h; grows = omega arith; none_raised = refl })
        | inr go ↦ rw go (
            closed s.current_offset s (live_loop raw_round stop fuel (some (suc m)) empty_summary s)
              well)
      ]

  -- Whatever the client, the bridge and the handlers do, a bounded run of the raw loop from an offset
  -- that the program can hold returns with no round raised, and with an offset that the program can
  -- hold and not below the first.
  pub raw_run :
      (stop_requested : RawRuntime E → Bool) (m : ℕ) (s : RawRuntime E)
      → IsOffset s.current_offset
      → (summary : PollingRunSummary) × (s' : RawRuntime E) × (run_until_stopped raw_round
            stop_requested
            (suc m)
            (some (pos m))
            s
          ≡ some (ok summary, s'))
        × Keeps s.current_offset summary s'
  raw_run stop m s h =
      let (summary, s', e, le, count) = bounded_run raw_round stop m s in
      (summary, s', e, rw e at (run-EndsWell stop (suc m) m s h))
