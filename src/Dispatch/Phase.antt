-- ===== src/Dispatch/Phase.antt =====
-- `run_write_phase` of src/dispatch.rs: it opens the session through the retry engine, and runs the
-- sequential phase at parallelism 1 and the windowed phase above.
pub mod LogOrder
use data_spark.Prelude.{ℕ, Option, none, some, List, ◌==◌, if◌then◌else◌}
use mathlib.Core.Option
use data_spark.Prelude.Outcome.{Result, ok, err}
use data_spark.Failure.{LoadFailure, DestinationWriteFailure}
use data_spark.LoadMode.{LoadMode}
use data_spark.Retry.{RetryPolicy, RetryAttempt}
use data_spark.Retry
use data_spark.Dispatch.Session.{Writer, PhaseRun, before_session}
use data_spark.Dispatch.Serial.{run_serial_write_phase}
use data_spark.Dispatch.Window.{Dispatcher, SlotCompletion}
use data_spark.Dispatch.Window.Loop.{Ended, returned, run_windowed_write_phase}

module _ {S Batch Panic : Type 0} (policy : RetryPolicy) (sleep_ms : ℕ → S → S)
    (begin : LoadMode → S → Result DestinationWriteFailure (Writer S Batch) × S)
    (next_completion : Writer S Batch → Dispatcher Batch Panic → S → SlotCompletion Panic × S) where
  -- The phase in an open session.
  unfoldable pub run_in_session :
      ℕ
      → List (Result LoadFailure Batch)
      → Writer S Batch
      → List RetryAttempt
      → S
      → Option (Ended S Panic)
  run_in_session parallelism chunks writer attempts s =
      if parallelism == 1
      then Option.map returned (run_serial_write_phase policy sleep_ms writer chunks attempts s)
      else run_windowed_write_phase parallelism (next_completion writer) writer chunks attempts s

  unfoldable pub run_write_phase :
      LoadMode
      → ℕ
      → List (Result LoadFailure Batch)
      → List RetryAttempt
      → S
      → Option (Ended S Panic)
  unfolding run_in_session
  run_write_phase mode parallelism chunks attempts s =
      elim (Retry.run_unit policy Retry.RetryUnit.begin sleep_ms (begin mode) attempts s) [
        | none ↦ none
        | some run ↦ elim run.result [
          | ok writer ↦ run_in_session parallelism chunks writer run.attempts run.state
          | err failure ↦ some (
              returned (record {
                result = err (before_session failure);
                attempts = run.attempts;
                state = run.state;
              }))
        ]
      ]
