-- ===== src/Execution.antt =====
-- The failure of a load with the facts that it had established: `ExecutionFailure` of src/lib.rs.
use data_spark.Prelude.{ℕ, Bool, true, false, ◌&&◌, Option, none, some, [], ◌∷◌, ltb, if◌then◌else◌}
use data_spark.Prelude.Text.{show, join}
use data_spark.Json.{Value}
use data_spark.Failure.{LoadFailure, DestinationWriteFacts, not_applicable}

pub record CommittedExecution : Type 0 where
  pub committed_chunks : ℕ
  pub chunk_rows : ℕ
  pub parallelism : ℕ
  pub connector_parallelism_limit : ℕ
  pub retry : Value

pub record ExecutionFailure : Type 0 where
  pub failure : LoadFailure
  pub schema_decision : Option Value
  pub source_rows : Option ℕ
  pub written_records : ℕ
  pub rejected_count : ℕ
  pub committed_execution : Option CommittedExecution
  pub retry : Option Value
  pub destination_write : DestinationWriteFacts

-- `From<LoadFailure>`
unfoldable pub from_failure : LoadFailure → ExecutionFailure
unfolding not_applicable
from_failure failure = record {
  failure = failure;
  schema_decision = none;
  source_rows = none;
  written_records = 0;
  rejected_count = 0;
  committed_execution = none;
  retry = none;
  destination_write = not_applicable;
}

-- schema.rs, `pre_materialization_failure`
unfoldable pub pre_materialization_failure : LoadFailure → Value → ExecutionFailure
unfolding not_applicable
pre_materialization_failure failure decision = record {
  failure = failure;
  schema_decision = some decision;
  source_rows = none;
  written_records = 0;
  rejected_count = 0;
  committed_execution = none;
  retry = none;
  destination_write = not_applicable;
}

unfoldable pub reject_threshold_failure : ℕ → ℕ → ℕ → LoadFailure
reject_threshold_failure rejected_count source_rows reject_threshold = record {
  code = "reject_threshold_exceeded";
  message = join "" (
      "rejected "
      ∷ show rejected_count
      ∷ " of "
      ∷ show source_rows
      ∷ " records, exceeding the reject threshold of "
      ∷ show reject_threshold
      ∷ []);
}

abbrev is_undecided : Option Value → Bool
is_undecided none = true
is_undecided (some decision) = false

abbrev pub unwrap_or : Option ℕ → ℕ → ℕ
unwrap_or none default = default
unwrap_or (some n) default = n

unfoldable pub apply_pending_reject_threshold : ExecutionFailure → ℕ → ExecutionFailure
unfolding reject_threshold_failure
apply_pending_reject_threshold failed reject_threshold =
    let source_rows = unwrap_or failed.source_rows failed.rejected_count in
    if is_undecided failed.schema_decision && ltb reject_threshold failed.rejected_count
    then record failed {
      failure = reject_threshold_failure failed.rejected_count source_rows reject_threshold;
      source_rows = some source_rows;
    }
    else failed

unfoldable pub with_rejected_count : ExecutionFailure → ℕ → ExecutionFailure
with_rejected_count failed rejected_count = record failed { rejected_count = rejected_count }
