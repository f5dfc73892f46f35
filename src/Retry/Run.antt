-- ===== src/Retry/Run.antt =====
-- What `run_unit` of src/retry.rs does, against a description of its calls: the world before each
-- call, the entries of the failures that were retried, and the call that settles the unit.
use mathlib.Core.List.{append_assoc, append-nil}
use native.Mathlib.Nat.{add-zero}
use data_spark.Prelude.{
  ℕ, zero, suc, ◌+◌, ◌-◌, ◌≤◌, ◌<◌, Bool, true, false, ◌&&◌, Option, none, some, List, [], ◌∷◌,
  ◌++◌, ◌≡◌, inl, inr, arith, ltb, if◌then◌else◌, length, Bool-cases, ◌∙◌,
}
use data_spark.Prelude.Outcome.{Result, ok, err}
use data_spark.Failure.{DestinationWriteFailure}
use data_spark.Retry.{
  RetryPolicy, RetryUnit, RetryAttempt, UnitRun, delay_before_attempt_ms, failed_attempt,
  is_transient, run_loop, run_unit,
}

-- A failure of the n-th attempt that the policy re-attempts.
abbrev pub retries : {T : Type 0} → RetryPolicy → ℕ → Result DestinationWriteFailure T → Bool
retries policy n (ok value) = false
retries policy n (err failure) = is_transient failure.transience && ltb n policy.max_attempts

-- The entries of one unit, numbered from n on.
abbrev pub IsNumberedFrom : RetryUnit → ℕ → List RetryAttempt → Type 0
IsNumberedFrom unit n [] = Unit
IsNumberedFrom unit n (e ∷ log) =
    (e.attempt ≡ n) × (e.unit ≡ unit) × IsNumberedFrom unit (n + 1) log

module _ {S T : Type 0} (policy : RetryPolicy) (unit : RetryUnit) (sleep_ms : ℕ → S → S)
    (operation : S → Result DestinationWriteFailure T × S) where
  -- The world before the next call: the n-th call, and the wait after it.
  abbrev pub after_retry : ℕ → S → S
  after_retry n s = sleep_ms (delay_before_attempt_ms policy (n + 1)) (operation s).1

  -- The world before call number n + k, if call n starts in `s`.
  abbrev pub world_before : ℕ → ℕ → S → S
  world_before n zero s = s
  world_before n (suc k) s = world_before (n + 1) k (after_retry n s)

  -- The k calls from number n on all fail, and all are retried.
  abbrev pub AllRetried : ℕ → ℕ → S → Type 0
  AllRetried n zero s = Unit
  AllRetried n (suc k) s =
      (retries policy n (operation s).0 ≡ true) × AllRetried (n + 1) k (after_retry n s)

  abbrev pub entry : ℕ → Option ℕ → Result DestinationWriteFailure T → List RetryAttempt
  entry n delay (ok value) = []
  entry n delay (err failure) = failed_attempt unit n failure delay ∷ []

  -- The entries of the k retried calls from number n on, each with the wait that followed it.
  abbrev pub retried_log : ℕ → ℕ → S → List RetryAttempt
  retried_log n zero s = []
  retried_log n (suc k) s =
      entry n (some (delay_before_attempt_ms policy (n + 1))) (operation s).0
      ++ retried_log (n + 1) k (after_retry n s)

  -- A failure that is final joins the log, with no wait, if the unit was retried at all.
  abbrev pub final_log : ℕ → Result DestinationWriteFailure T → List RetryAttempt
  final_log n r = if ltb 1 n then entry n none r else []

  -- What the unit hands back when its n-th call is the last one, with the log before it.
  abbrev pub finish : ℕ → List RetryAttempt → Result DestinationWriteFailure T × S → UnitRun S T
  finish n attempts (outcome, s') = record {
    result = outcome;
    attempts = attempts ++ final_log n outcome;
    state = s';
  }

  -- What it hands back when call n + k settles it.
  abbrev pub settled : ℕ → ℕ → List RetryAttempt → S → UnitRun S T
  settled n k attempts s =
      finish (n + k) (attempts ++ retried_log n k s) (operation (world_before n k s))

  loop_step :
      (fuel n : ℕ) (attempts : List RetryAttempt) (s : S)
      → retries policy n (operation s).0 ≡ true
      → run_loop policy unit sleep_ms operation (suc fuel) n attempts s
        ≡ run_loop policy unit sleep_ms operation fuel
            (n + 1)
            (attempts ++ entry n (some (delay_before_attempt_ms policy (n + 1))) (operation s).0)
            (after_retry n s)
  unfolding run_loop
  loop_step fuel n attempts s h = ground arith

  loop_end :
      (fuel n : ℕ) (attempts : List RetryAttempt) (s : S)
      → retries policy n (operation s).0 ≡ false
      → run_loop policy unit sleep_ms operation (suc fuel) n attempts s
        ≡ some (finish n attempts (operation s))
  unfolding run_loop
  loop_end fuel n attempts s h = ground (arith, append-nil attempts)

  -- With fuel left after the k retried calls, the loop ends at the first call that is not retried.
  run_loop_settles :
      (fuel n k : ℕ) (attempts : List RetryAttempt) (s : S)
      → k < fuel
      → AllRetried n k s
      → retries policy (n + k) (operation (world_before n k s)).0 ≡ false
      → run_loop policy unit sleep_ms operation fuel n attempts s ≡ some (settled n k attempts s)
  run_loop_settles zero n k attempts s h r e = absurd (omega arith)
  run_loop_settles (suc fuel) n zero attempts s h r e =
      rw (add-zero n, append-nil attempts) (loop_end fuel n attempts s (rw (add-zero n) at e))
  run_loop_settles (suc fuel) n (suc k) attempts s h r e =
      let shift : n + suc k ≡ n + 1 + k = omega arith in
      rw shift (
        rw (← append_assoc) (
          loop_step fuel n attempts s r.0
          ∙ run_loop_settles fuel (n + 1) k _ (after_retry n s) (omega arith) r.1 (rw shift at e)))

  -- The call that settles a unit: the first one that is not retried.
  find_settling :
      (fuel n : ℕ) (s : S)
      → policy.max_attempts ≤ n + fuel
      → (k : ℕ) × (k ≤ fuel)
        × AllRetried n k s
        × (retries policy (n + k) (operation (world_before n k s)).0 ≡ false)
  find_settling zero n s h = (zero, omega arith, tt, ground (arith, add-zero n))
  find_settling (suc fuel) n s h = elim (Bool-cases (retries policy n (operation s).0)) [
    | inl again ↦
        let (k, bound, all, last) = find_settling fuel (n + 1) (after_retry n s) (omega arith) in
        let shift : n + suc k ≡ n + 1 + k = omega arith in
        (suc k, omega arith, (again, all), rw shift last)
    | inr last ↦ (zero, omega arith, tt, rw (add-zero n) last)
  ]

  -- Under a policy of at least one attempt a unit always returns, whatever the operation does: it
  -- makes k + 1 calls, at most `max_attempts`, of which the first k fail, are transient and are
  -- followed by their waits, and the last is not retried (a success, a terminal failure, or the
  -- end of the budget). It surfaces the result of the last call unchanged, appends the entries of
  -- the k retried calls to the log and, if k > 0 and the last call fails, that failure with no wait.
  pub run_unit_lem :
      (attempts : List RetryAttempt) (s : S)
      → 1 ≤ policy.max_attempts
      → (k : ℕ) × (k < policy.max_attempts)
        × AllRetried 1 k s
        × (retries policy (1 + k) (operation (world_before 1 k s)).0 ≡ false)
        × (run_unit policy unit sleep_ms operation attempts s ≡ some (settled 1 k attempts s))
  unfolding run_unit
  run_unit_lem attempts s h =
      let (k, bound, all, last) = find_settling (policy.max_attempts - 1) 1 s (omega arith) in
      let enough : k < policy.max_attempts = omega arith in
      (k, enough, all, last, run_loop_settles policy.max_attempts 1 k attempts s enough all last)

  final-IsNumbered :
      (n : ℕ) (r : Result DestinationWriteFailure T)
      → IsNumberedFrom unit n (final_log n r) × (length (final_log n r) ≤ 1)
  unfolding failed_attempt
  final-IsNumbered n r = ground arith

  log-IsNumbered :
      (n k : ℕ) (s : S)
      → AllRetried n k s
      → let log = retried_log n k s ++ final_log (n + k) (operation (world_before n k s)).0 in
        IsNumberedFrom unit n log × (length log ≤ suc k)
  unfolding failed_attempt
  log-IsNumbered n zero s all = rw (add-zero n) (final-IsNumbered n (operation s).0)
  log-IsNumbered n (suc k) s all =
      let shift : n + suc k ≡ n + 1 + k = omega arith in
      rw shift (ground (arith, log-IsNumbered (n + 1) k (after_retry n s) all.1))

  -- Whatever the operation does, a unit under a policy of at least one attempt returns, and appends
  -- to the log entries of its own unit alone, numbered 1, 2, 3, ... without a gap, at most
  -- `max_attempts` of them.
  pub run_unit-IsNumbered :
      (attempts : List RetryAttempt) (s : S)
      → 1 ≤ policy.max_attempts
      → (u : UnitRun S T) × (log : List RetryAttempt) × (run_unit policy unit sleep_ms operation
            attempts s
          ≡ some u)
        × (u.attempts ≡ attempts ++ log)
        × IsNumberedFrom unit 1 log
        × (length log ≤ policy.max_attempts)
  run_unit-IsNumbered attempts s h =
      let (k, bound, all, last, run) = run_unit_lem attempts s h in
      let (numbered, short) = log-IsNumbered 1 k s all in
      let outcome = (operation (world_before 1 k s)).0 in
      (
        settled 1 k attempts s,
        retried_log 1 k s ++ final_log (1 + k) outcome,
        run,
        append_assoc attempts (retried_log 1 k s) (final_log (1 + k) outcome),
        numbered,
        omega arith,
      )
