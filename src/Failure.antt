-- ===== src/Failure.antt =====
-- The failures of a load and the facts that travel with them: `LoadFailure` of src/lib.rs and the
-- destination's failure types of src/connector.rs. The codes are the source's string constants.
use data_spark.Prelude.{ℕ, String, Option, none, some}

-- lib.rs, `LoadFailure`
pub record LoadFailure : Type 0 where
  pub code : String
  pub message : String

-- connector.rs, `MergeWriteCounts`
pub record MergeWriteCounts : Type 0 where
  pub updated : ℕ
  pub inserted : ℕ

-- connector.rs, `DestinationWriteFacts`
pub record DestinationWriteFacts : Type 0 where
  pub atomicity : String
  pub strategy : Option String
  pub merge : Option MergeWriteCounts

unfoldable pub not_applicable : DestinationWriteFacts
not_applicable = record { atomicity = "not_applicable"; strategy = none; merge = none }

unfoldable pub atomic : String → DestinationWriteFacts
atomic strategy = record { atomicity = "atomic"; strategy = some strategy; merge = none }

unfoldable pub best_effort : String → DestinationWriteFacts
best_effort strategy = record { atomicity = "best_effort"; strategy = some strategy; merge = none }

unfoldable pub with_merge_counts : DestinationWriteFacts → ℕ → ℕ → DestinationWriteFacts
with_merge_counts facts updated inserted = record facts {
  merge = some (record { updated = updated; inserted = inserted });
}

-- connector.rs, `Transience`
pub data Transience : Type 0 where
  transient terminal : Transience

-- connector.rs, `DestinationWriteFailure`
pub record DestinationWriteFailure : Type 0 where
  pub failure : LoadFailure
  pub facts : DestinationWriteFacts
  pub written_records : ℕ
  pub committed_chunks : ℕ
  pub transience : Transience

-- connector.rs, `DestinationWrite` and `AbandonedWrite`
pub record DestinationWrite : Type 0 where
  pub bytes_written : Option ℕ
  pub facts : DestinationWriteFacts

pub record AbandonedWrite : Type 0 where
  pub committed_chunks : ℕ
  pub written_records : ℕ
  pub facts : DestinationWriteFacts
