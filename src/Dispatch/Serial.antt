-- ===== src/Dispatch/Serial.antt =====
-- `run_serial_write_phase` of src/dispatch.rs: one chunk at a time, in stream order.
-- The chunk stream is the list of what its pulls yield.
pub mod Laws
use data_spark.Prelude.{ℕ, zero, ◌+◌, Option, none, some, List, [], ◌∷◌}
use data_spark.Prelude.Outcome.{Result, ok, err}
use data_spark.Failure.{LoadFailure, DestinationWriteFailure, DestinationWrite}
use data_spark.Retry.{RetryPolicy, RetryAttempt, write_chunk, run_unit}
use data_spark.Dispatch.Session.{
  Writer, WritePhaseOutcome, PhaseRun, in_session, abandon_in_session,
}

-- `writer.commit().map_err(InSession)?` and the outcome that states the chunk count.
unfoldable pub commit_session :
    {S : Type 0}
    → ℕ
    → List RetryAttempt
    → Result DestinationWriteFailure DestinationWrite × S
    → PhaseRun S
commit_session chunk_count attempts (ok write, s) = record {
  result = ok (record {
    bytes_written = write.bytes_written;
    facts = write.facts;
    chunk_count = chunk_count;
  });
  attempts = attempts;
  state = s;
}
commit_session chunk_count attempts (err failure, s) = record {
  result = err (in_session failure);
  attempts = attempts;
  state = s;
}

unfoldable pub abandon_session :
    {S Batch : Type 0} → Writer S Batch → LoadFailure → List RetryAttempt → S → PhaseRun S
unfolding abandon_in_session
abandon_session writer failure attempts s =
    let (surfaced, s') = abandon_in_session writer failure s in
    record { result = err surfaced; attempts = attempts; state = s' }

module _ {S Batch : Type 0} (policy : RetryPolicy) (sleep_ms : ℕ → S → S)
    (writer : Writer S Batch) where
  -- The `for` loop, then the commit; `none` only if a unit ran out of fuel.
  unfoldable pub serial_loop :
      List (Result LoadFailure Batch) → ℕ → List RetryAttempt → S → Option (PhaseRun S)
  serial_loop [] chunk_count attempts s =
      some (commit_session chunk_count attempts (writer.commit s))
  serial_loop (ok batch ∷ chunks) chunk_count attempts s =
      elim (run_unit policy (write_chunk chunk_count) sleep_ms (writer.write_chunk batch) attempts
        s) [
          | none ↦ none
          | some run ↦ elim run.result [
            | ok _ ↦ serial_loop chunks (chunk_count + 1) run.attempts run.state
            | err failure ↦ some (record {
              result = err (in_session failure);
              attempts = run.attempts;
              state = run.state;
            })
          ]
        ]
  serial_loop (err failure ∷ chunks) chunk_count attempts s =
      some (abandon_session writer failure attempts s)

  unfoldable pub run_serial_write_phase :
      List (Result LoadFailure Batch) → List RetryAttempt → S → Option (PhaseRun S)
  unfolding serial_loop
  run_serial_write_phase chunks attempts s = serial_loop chunks zero attempts s
