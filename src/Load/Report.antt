-- ===== src/Load/Report.antt =====
-- The report of a load in src/lib.rs: `LoadReport`, its parts and `summary_text`;
-- `DestinationWriteFacts::report_value` of src/connector.rs.
use data_spark.Prelude.{ℕ, String, Option, none, some, List, [], ◌∷◌, ltb, if◌then◌else◌}
use data_spark.Prelude.Text.{join}
use data_spark.Prelude.Outcome.{Result, ok, err}
use data_spark.Json.{Value, Fields, uint}
use data_spark.Failure.{DestinationWriteFacts, MergeWriteCounts}
use data_spark.Execution.{CommittedExecution}
use data_spark.Schema.Externals.{Externals}
use data_spark.Load.Ports.{RowCounts, ByteCounts, ExecutionDetails}
use data_spark.Load.Definition.{ReportableFailure}

abbrev strategy_field : Option String → Fields → Fields
strategy_field none rest = rest
strategy_field (some strategy) rest = Fields.field "strategy" (Value.string strategy) rest

abbrev merge_field : Option MergeWriteCounts → Fields
merge_field none = Fields.no_fields
merge_field (some merge) =
    Fields.field "merge"
      (Value.object (
        Fields.field "updated" (uint merge.updated)
          (Fields.field "inserted" (uint merge.inserted) Fields.no_fields)))
      Fields.no_fields

unfoldable pub facts_value : DestinationWriteFacts → Value
facts_value facts = Value.object (
    Fields.field "atomicity" (Value.string facts.atomicity)
      (strategy_field facts.strategy (merge_field facts.merge)))

pub record RejectedRecordFacts : Type 0 where
  pub count : ℕ
  pub artifact : Option String

pub record ErrorSummary : Type 0 where
  pub code : String
  pub message : String

pub record Timings : Type 0 where
  pub started_unix_ms : ℕ
  pub finished_unix_ms : ℕ
  pub duration_ms : ℕ

pub record LoadReport : Type 0 where
  pub report_version : ℕ
  pub binary_version : String
  pub load_id : String
  pub artifact_dir : String
  pub source_summary : Value
  pub destination_summary : Value
  pub dataset : Option String
  pub load_mode : String
  pub merge : Value
  pub schema_decision : Value
  pub row_counts : RowCounts
  pub byte_counts : ByteCounts
  pub rejected_records : RejectedRecordFacts
  pub destination_write : Value
  pub execution : Value
  pub timings : Timings
  pub exit_status : String
  pub process_exit_code : ℕ
  pub error_summary : Option ErrorSummary

-- `join_path` is `Path::join`.
unfoldable pub rejected_facts : (String → String → String) → ℕ → String → RejectedRecordFacts
rejected_facts join_path count artifact_dir = record {
  count = count;
  artifact = if ltb 0 count then some (join_path artifact_dir "rejected-records.jsonl") else none;
}

abbrev batch_field : Fields → Fields
batch_field rest =
    Fields.field "record_format" (Value.string "not_started")
      (Fields.field "batch_count" (uint 0) rest)

unfoldable pub failed_execution : Option CommittedExecution → Option Value → Value
failed_execution none none = Value.object (batch_field Fields.no_fields)
failed_execution none (some retry) =
    Value.object (batch_field (Fields.field "retry" retry Fields.no_fields))
failed_execution (some committed) retry = Value.object (
    Fields.field "record_format" (Value.string "arrow_record_batch") (
      Fields.field "batch_count" (uint committed.committed_chunks) (
        Fields.field "chunk_rows" (uint committed.chunk_rows) (
          Fields.field "parallelism" (uint committed.parallelism) (
            Fields.field "connector_parallelism_limit" (uint committed.connector_parallelism_limit)
              (Fields.field "retry" committed.retry Fields.no_fields))))))

-- `binary_version` is the version that the build gives the package.
module _ (join_path : String → String → String) (binary_version load_id artifact_dir : String)
    (timings : Timings) where
  unfoldable pub from_success : ExecutionDetails → LoadReport
  unfolding rejected_facts facts_value
  from_success details = record {
    report_version = 1;
    binary_version = binary_version;
    load_id = load_id;
    artifact_dir = artifact_dir;
    source_summary = details.source_summary;
    destination_summary = details.destination_summary;
    dataset = details.dataset;
    load_mode = details.load_mode;
    merge = details.merge;
    schema_decision = details.schema_decision;
    row_counts = details.row_counts;
    byte_counts = details.byte_counts;
    rejected_records = rejected_facts join_path details.rejected_count artifact_dir;
    destination_write = facts_value details.destination_write;
    execution = details.execution;
    timings = timings;
    exit_status = "succeeded";
    process_exit_code = 0;
    error_summary = none;
  }

  unfoldable pub from_failure : ReportableFailure → LoadReport
  unfolding rejected_facts facts_value failed_execution
  from_failure failure = record {
    report_version = 1;
    binary_version = binary_version;
    load_id = load_id;
    artifact_dir = artifact_dir;
    source_summary = failure.source_summary;
    destination_summary = failure.destination_summary;
    dataset = failure.dataset;
    load_mode = failure.load_mode;
    merge = failure.merge;
    schema_decision = failure.schema_decision;
    row_counts = record {
      source = failure.source_rows;
      written = failure.written_records;
      rejected = failure.rejected_count;
    };
    byte_counts = record { source = none; destination = none };
    rejected_records = rejected_facts join_path failure.rejected_count artifact_dir;
    destination_write = facts_value failure.destination_write;
    execution = failed_execution failure.committed_execution failure.retry;
    timings = timings;
    exit_status = "failed";
    process_exit_code = 1;
    error_summary = some (record { code = failure.code; message = failure.message });
  }

  -- The `match` on the execution in `run_load`.
  unfoldable pub report_of : Result ReportableFailure ExecutionDetails → LoadReport
  unfolding from_success from_failure
  report_of (ok details) = from_success details
  report_of (err failure) = from_failure failure

module _ (x : Externals) where
  abbrev summary_value : Value → String
  summary_value (Value.string text) = text
  summary_value other = x.render other

  -- `{key}={value}` for each entry
  unfoldable pub summary_entries : Fields → List String
  summary_entries Fields.no_fields = []
  summary_entries (Fields.field key value rest) =
      join "" (key ∷ "=" ∷ summary_value value ∷ []) ∷ summary_entries rest

  unfoldable pub summary_text : Value → String
  unfolding summary_entries
  summary_text (Value.object Fields.no_fields) = "not specified"
  summary_text (Value.object (Fields.field key value rest)) =
      join ", " (summary_entries (Fields.field key value rest))
  summary_text other = x.render other
