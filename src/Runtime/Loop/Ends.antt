-- ===== src/Runtime/Loop/Ends.antt =====
-- The loops end, and count their rounds.
use startprojectformillion.Base.{
  ℕ, zero, suc, ◌+◌, ◌≤◌, ◌<◌, ◌≡◌, refl, Bool, true, false, none, some, leb, arith, inl, inr,
  Bool-cases,
}
use startprojectformillion.Shared.{Exec, Result, ok, err, value_error}
use startprojectformillion.Shared.Validation.{pos, negsuc}
use startprojectformillion.Runtime.Polling.{PollingBatchResult}
use startprojectformillion.Runtime.Loop.{
  PollingRunSummary, empty_summary, started, add_result, iterate, run_iterations, live_loop,
  run_until_stopped, close_summary,
}

started-add_result :
    (s : PollingRunSummary) (r : Result PollingBatchResult)
    → started (add_result s r) ≡ started s + 1
unfolding add_result
started-add_result s r = ground arith

module _ {E : Type 0} (poll_once : Exec E PollingBatchResult) where
  iterate-started :
      (n : ℕ) (s : PollingRunSummary) (env : E)
      → started (iterate poll_once n s env).0 ≡ started s + n
  unfolding iterate
  iterate-started zero s env = omega arith
  iterate-started (suc n) s env =
      let (r, env') = poll_once env in
      omega (arith, iterate-started n (add_result s r) env', started-add_result s r)

  -- For a number that is not negative `run_iterations` returns, with that number as its requested
  -- iterations, and each was completed or raised; a negative number is refused with nothing called.
  pub run_iterations_lem :
      (n : ℕ) (env : E)
      → ((s : PollingRunSummary) × ((run_iterations poll_once (pos n) env).0 ≡ ok s)
          × (s.iterations_requested ≡ n)
          × (s.iterations_completed + s.poll_once_exception_count ≡ n))
        × (run_iterations poll_once (negsuc n) env ≡ (err value_error, env))
  unfolding run_iterations
  run_iterations_lem n env =
      ((_, refl, refl, omega (arith, iterate-started n empty_summary env)), refl)

  -- The surroundings after a number of rounds.
  abbrev pub after : ℕ → E → E
  after zero env = env
  after (suc k) env = after k (poll_once env).1

  module _ (stop_requested : E → Bool) where
    -- A bounded loop with more fuel than rounds left ends within its limit.
    bounded_loop :
        (fuel m : ℕ) (s : PollingRunSummary) (env : E)
        → started s ≤ m
        → m < fuel + started s
        → (s' : PollingRunSummary) × (env' : E) × (live_loop poll_once stop_requested fuel
              (some m)
              s
              env
            ≡ some (s', env'))
          × (started s' ≤ m)
    unfolding live_loop
    bounded_loop zero m s env h f = absurd (omega arith)
    bounded_loop (suc fuel) m s env h f = elim (Bool-cases (stop_requested env)) [
      | inl stop ↦ (s, env, rw (stop, live_loop), h)
      | inr go ↦ elim (Bool-cases (leb m (started s))) [
        | inl full ↦ (s, env, rw (go, full, live_loop), h)
        | inr room ↦
            let (r, env1) = poll_once env in
            let (s', env', e, le) =
              bounded_loop fuel m (add_result s r) env1 (ground (arith, started-add_result s r))
                (omega (arith, started-add_result s r)) in
            (s', env', rw (go, room, live_loop) e, le)
      ]
    ]

    -- With a limit on the iterations, one unit of fuel more than the limit is enough: the call
    -- returns a summary whose rounds are at most the limit, each completed or raised.
    pub bounded_run :
        (m : ℕ) (env : E)
        → (s : PollingRunSummary) × (env' : E) × (run_until_stopped poll_once stop_requested
              (suc m)
              (some (pos m))
              env
            ≡ some (ok s, env'))
          × (s.iterations_requested ≤ m)
          × (s.iterations_completed + s.poll_once_exception_count ≡ s.iterations_requested)
    unfolding run_until_stopped
    bounded_run m env = elim (Bool-cases (stop_requested env)) [
      | inl stop ↦ (empty_summary, env, rw stop, omega arith, refl)
      | inr go ↦ from_limit m go
    ]
      where
        from_limit :
            (n : ℕ)
            → stop_requested env ≡ false
            → (s : PollingRunSummary) × (env' : E) × (run_until_stopped poll_once stop_requested
                  (suc n)
                  (some (pos n))
                  env
                ≡ some (ok s, env'))
              × (s.iterations_requested ≤ n)
              × (s.iterations_completed + s.poll_once_exception_count ≡ s.iterations_requested)
        from_limit zero go = (empty_summary, env, rw go, omega arith, refl)
        from_limit (suc n) go =
            let (s, env', e, le) =
              bounded_loop (suc (suc n)) (suc n) empty_summary env (omega arith) (omega arith) in
            (close_summary s, env', rw go (rw e), le, refl)

    -- Without a limit the loop makes a round for each time that it finds the flag down, and no more.
    unbounded_loop :
        (k : ℕ) (s : PollingRunSummary) (env : E)
        → ((j : ℕ) → j < k → stop_requested (after j env) ≡ false)
        → stop_requested (after k env) ≡ true
        → (s' : PollingRunSummary) × (live_loop poll_once stop_requested (suc k) none s env
            ≡ some (s', after k env))
          × (started s' ≡ started s + k)
    unfolding live_loop
    unbounded_loop zero s env down up = (s, rw (up, live_loop), omega arith)
    unbounded_loop (suc k) s env down up =
        let (r, env1) = poll_once env in
        let (s', e, count) =
          unbounded_loop k (add_result s r) env1 (λ j h. down (suc j) (omega arith)) up in
        (s', rw (down 0 (omega arith), live_loop) e, omega (arith, count, started-add_result s r))

    -- Without a limit, if the flag is first up after `k` rounds, the call ends there with `k` rounds
    -- counted, and `k + 1` units of fuel are enough.
    pub unbounded_run :
        (k : ℕ) (env : E)
        → ((j : ℕ) → j < k → stop_requested (after j env) ≡ false)
        → stop_requested (after k env) ≡ true
        → (s : PollingRunSummary) × (run_until_stopped poll_once stop_requested (suc k) none env
            ≡ some (ok s, after k env))
          × (s.iterations_requested ≡ k)
    unfolding run_until_stopped
    unbounded_run zero env down up = (empty_summary, rw up, refl)
    unbounded_run (suc k) env down up =
        let (s, e, count) = unbounded_loop (suc k) empty_summary env down up in
        (close_summary s, rw (down 0 (omega arith)) (rw e), omega (arith, count))
