-- ===== src/Dispatch/Session.antt =====
-- The types of src/dispatch.rs, the destination's writer as src/connector.rs declares it, and the
-- way a halted session ends. `S` is the state of the outside world, `Batch` an Arrow record batch.
use data_spark.Prelude.{ℕ, Option, List}
use data_spark.Prelude.Outcome.{Result}
use data_spark.Failure.{
  LoadFailure, DestinationWriteFacts, DestinationWriteFailure, DestinationWrite, AbandonedWrite,
  terminal,
}
use data_spark.Retry.{RetryAttempt}

-- connector.rs, `trait DestinationWriter`
pub record Writer (S Batch : Type 0) : Type 0 where
  pub write_chunk : Batch → S → Result DestinationWriteFailure (Unit {0}) × S
  pub commit : S → Result DestinationWriteFailure DestinationWrite × S
  pub abandon : S → AbandonedWrite × S

pub record WritePhaseOutcome : Type 0 where
  pub bytes_written : Option ℕ
  pub facts : DestinationWriteFacts
  pub chunk_count : ℕ

pub data WritePhaseFailure : Type 0 where
  before_session : DestinationWriteFailure → WritePhaseFailure
  in_session : DestinationWriteFailure → WritePhaseFailure

-- What a phase hands back: its result, the attempt log, and the world.
pub record PhaseRun (S : Type 0) : Type 0 where
  pub result : Result WritePhaseFailure WritePhaseOutcome
  pub attempts : List RetryAttempt
  pub state : S

module _ {S Batch : Type 0} where
  unfoldable pub abandon_in_session : Writer S Batch → LoadFailure → S → WritePhaseFailure × S
  abandon_in_session writer failure s =
      let (abandoned, s') = writer.abandon s in
      (
        in_session (record {
          failure = failure;
          facts = abandoned.facts;
          written_records = abandoned.written_records;
          committed_chunks = abandoned.committed_chunks;
          transience = terminal;
        }),
        s',
      )
