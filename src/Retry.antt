-- ===== src/Retry.antt =====
-- The retry engine of src/retry.rs: the policy, the backoff, and the loop that runs one retry unit.
-- The operation and the sleeper are parameters over a state `S` of the outside world: an operation
-- returns its result and the new state, and a wait returns the new state.
pub mod Backoff
pub mod Run
pub mod Sort
pub mod Report
use data_spark.Prelude.{
  ℕ, zero, suc, ◌+◌, ◌-◌, ◌<◌, min, String, Bool, true, false, ◌&&◌, Option, none, some, List, [],
  ◌∷◌, ◌++◌, ltb, if◌then◌else◌, u32_max, saturating_mul, saturating_pow,
}
use data_spark.Prelude.Outcome.{Result, ok, err}
use data_spark.Failure.{DestinationWriteFailure, Transience, transient, terminal}

pub record RetryPolicy : Type 0 where
  pub max_attempts : ℕ
  pub initial_delay_ms : ℕ
  pub max_delay_ms : ℕ

-- `impl Default for RetryPolicy`
abbrev pub default_policy : RetryPolicy
default_policy = record { max_attempts = 3; initial_delay_ms = 200; max_delay_ms = 5000 }

pub data RetryUnit : Type 0 where
  begin : RetryUnit
  write_chunk : ℕ → RetryUnit

pub record RetryAttempt : Type 0 where
  pub unit : RetryUnit
  pub attempt : ℕ
  pub code : String
  pub message : String
  pub delay_before_retry_ms : Option ℕ

-- `u32::try_from(attempt.saturating_sub(2)).unwrap_or(u32::MAX)` is the minimum with `u32::MAX`.
unfoldable pub delay_before_attempt_ms : RetryPolicy → ℕ → ℕ
delay_before_attempt_ms policy attempt =
    let doublings = min (attempt - 2) u32_max in
    min (saturating_mul (saturating_pow 2 doublings) policy.initial_delay_ms) policy.max_delay_ms

-- `failure.transience == Transience::Transient`
abbrev pub is_transient : Transience → Bool
is_transient transient = true
is_transient terminal = false

-- The entry that a failed attempt leaves in the log.
unfoldable pub failed_attempt : RetryUnit → ℕ → DestinationWriteFailure → Option ℕ → RetryAttempt
failed_attempt unit attempt failure delay = record {
  unit = unit;
  attempt = attempt;
  code = failure.failure.code;
  message = failure.failure.message;
  delay_before_retry_ms = delay;
}

-- What a finished unit hands back: the surfaced result, the attempt log, and the world.
pub record UnitRun (S T : Type 0) : Type 0 where
  pub result : Result DestinationWriteFailure T
  pub attempts : List RetryAttempt
  pub state : S

module _ {S T : Type 0} (policy : RetryPolicy) (unit : RetryUnit) (sleep_ms : ℕ → S → S)
    (operation : S → Result DestinationWriteFailure T × S) where
  -- The `loop`, one round for each unit of fuel; `none` means that the fuel ran out.
  unfoldable pub run_loop : ℕ → ℕ → List RetryAttempt → S → Option (UnitRun S T)
  run_loop zero attempt attempts s = none
  run_loop (suc fuel) attempt attempts s =
      let (outcome, s') = operation s in
      elim outcome [
        | ok value ↦ some (record { result = ok value; attempts = attempts; state = s' })
        | err failure ↦
            let delay_ms = delay_before_attempt_ms policy (attempt + 1) in
            let again =
              run_loop fuel (attempt + 1)
                (attempts ++ failed_attempt unit attempt failure (some delay_ms) ∷ [])
                (sleep_ms delay_ms s') in
            let last_log =
              if ltb 1 attempt
              then attempts ++ failed_attempt unit attempt failure none ∷ []
              else attempts in
            if is_transient failure.transience && ltb attempt policy.max_attempts
            then again
            else some (record { result = err failure; attempts = last_log; state = s' })
      ]

  -- A round either ends the loop or raises `attempt`, which stays at most `max_attempts`.
  unfoldable pub run_unit : List RetryAttempt → S → Option (UnitRun S T)
  unfolding run_loop
  run_unit attempts s = run_loop policy.max_attempts 1 attempts s
