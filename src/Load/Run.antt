-- ===== src/Load/Run.antt =====
-- `execute_supported_load` of src/lib.rs, over the interface of the connectors.
pub mod Gate
pub mod Ends
use mathlib.Core.Option
use data_spark.Prelude.{
  ℕ, ◌+◌, ◌-◌, ◌^◌, String, Bool, true, false, Option, none, some, List, [], ◌∷◌, ltb,
  if◌then◌else◌,
}
use data_spark.Prelude.Outcome.{Result, ok, err, ◌>>=◌, ◌>>◌, map_err}
use data_spark.Json.{Value, Fields, uint}
use data_spark.Failure.{LoadFailure, DestinationWriteFailure, DestinationWriteFacts, not_applicable}
use data_spark.Execution.{
  ExecutionFailure, CommittedExecution, from_failure, reject_threshold_failure,
  apply_pending_reject_threshold,
}
use data_spark.LoadMode.{LoadMode, parse}
use data_spark.Retry.{RetryPolicy, RetryAttempt}
use data_spark.Retry.Report.{report_value, report_when_attempted}
use data_spark.Dispatch.Session.{
  Writer, PhaseRun, WritePhaseOutcome, WritePhaseFailure, before_session, in_session,
}
use data_spark.Dispatch.Window.{Dispatcher, SlotCompletion}
use data_spark.Dispatch.Window.Loop.{Ended, returned, raised}
use data_spark.Dispatch.Phase.{run_write_phase}
use data_spark.Schema.Externals.{Externals}
use data_spark.Schema.Directive.{SchemaDirective}
use data_spark.Schema.Pinned.{Yaml}
use data_spark.Schema.Plan.{PinnedSchemaWrite}
use data_spark.Load.Config.{
  LoadDefinition, SourceDefinition, DestinationDefinition, MergeConfig, ExecutionConfig,
  source_json, destination_json, merge_json, validate_merge_config, resolve_chunk_rows,
  resolve_retry_policy, resolve_parallelism, or_default,
}
use data_spark.Load.Directive.{Files, resolve_schema_directive, persist_pinned_schema}
use data_spark.Load.Ports.{
  SourceRead, Source, Destination, Ports, ByteCounts, RowCounts, ExecutionDetails, Setup, LoadEnd,
  ended, panicked,
}

-- The difference of two `u64`s. A negative one wraps, as in a release build; in a debug build it
-- panics.
unfoldable pub wrapping_sub : ℕ → ℕ → ℕ
wrapping_sub a b = if ltb a b then a + 2 ^ 64 - b else a - b

abbrev pub required : {A : Type 0} → Option A → String → String → Result LoadFailure A
required none code message = err (record { code = code; message = message })
required (some a) code message = ok a

abbrev pub mode_text : Option String → String
mode_text none = "full_refresh"
mode_text (some text) = text

unfoldable pub resolved_pre_write_failure : LoadFailure → Value → ℕ → ℕ → ExecutionFailure
unfolding not_applicable
resolved_pre_write_failure failure schema_decision source_rows rejected_count = record {
  failure = failure;
  schema_decision = some schema_decision;
  source_rows = some source_rows;
  written_records = 0;
  rejected_count = rejected_count;
  committed_execution = none;
  retry = none;
  destination_write = not_applicable;
}

module _ {S Batch Panic Text : Type 0} (x : Externals) (yaml : Yaml Text) (is_blank : String → Bool)
    (files : Files S Text) (ports : Ports S Batch Panic Text) (definition : LoadDefinition) where
  -- Everything that is validated before the source is read.
  unfoldable pub validate_definition : S → Result LoadFailure (Setup S Batch Panic Text)
  unfolding parse validate_merge_config resolve_schema_directive
  validate_definition s =
      let load_mode = mode_text definition.load_mode in
      required definition.source "missing_source" "load definition source is required" >>= λ source.
      required definition.destination "missing_destination"
        "load definition destination is required"
      >>= λ destination. parse load_mode >>= λ mode.
          validate_merge_config x mode definition.merge >>= λ merge_keys.
          ports.source_connector source >>= λ source_port.
          ports.destination_connector destination definition.dataset merge_keys
          >>= λ destination_port.
              destination_port.validate_mode mode
              >> (resolve_schema_directive x yaml is_blank files definition.schema
                    definition.transform (ports.resolved_source_format source.path source.format) s
                  >>= λ directive. ok (record {
                    source = source;
                    destination = destination;
                    load_mode = load_mode;
                    mode = mode;
                    merge_keys = merge_keys;
                    source_port = source_port;
                    destination_port = destination_port;
                    directive = directive;
                  }))

  module _ (setup : Setup S Batch Panic Text) where
    abbrev pub policy : RetryPolicy
    policy = resolve_retry_policy definition.execution

    abbrev pub limit : ℕ
    limit = setup.destination_port.parallelism_limit setup.mode

    abbrev pub parallelism : ℕ
    parallelism = resolve_parallelism definition.execution limit

    abbrev pub reject_threshold : ℕ
    reject_threshold = or_default definition.reject_threshold 0

    unfoldable pub success_details :
        SourceRead Batch Text → WritePhaseOutcome → List RetryAttempt → ExecutionDetails
    unfolding source_json destination_json merge_json resolve_chunk_rows report_value wrapping_sub
    success_details read outcome attempts = record {
      source_summary = source_json setup.source;
      destination_summary = destination_json setup.destination;
      dataset = definition.dataset;
      load_mode = setup.load_mode;
      merge = merge_json definition.merge;
      schema_decision = read.schema_decision;
      row_counts = record {
        source = read.source_rows;
        written = wrapping_sub read.source_rows read.rejected_count;
        rejected = read.rejected_count;
      };
      byte_counts = record { source = some read.source_bytes; destination = outcome.bytes_written };
      rejected_count = read.rejected_count;
      destination_write = outcome.facts;
      execution = Value.object (
          Fields.field "record_format" (Value.string "arrow_record_batch") (
            Fields.field "batch_count" (uint outcome.chunk_count) (
              Fields.field "chunk_rows" (uint (resolve_chunk_rows definition.execution)) (
                Fields.field "parallelism" (uint parallelism) (
                  Fields.field "connector_parallelism_limit" (uint limit)
                    (Fields.field "retry" (report_value policy attempts) Fields.no_fields))))));
    }

    -- The two failures of the write phase.
    unfoldable pub write_failure :
        SourceRead Batch Text → WritePhaseFailure → List RetryAttempt → ExecutionFailure
    unfolding report_when_attempted report_value resolve_chunk_rows
    write_failure read (before_session failed) attempts = record {
      failure = failed.failure;
      schema_decision = some read.schema_decision;
      source_rows = some read.source_rows;
      written_records = failed.written_records;
      rejected_count = read.rejected_count;
      committed_execution = none;
      retry = report_when_attempted policy attempts;
      destination_write = failed.facts;
    }
    write_failure read (in_session failed) attempts = record {
      failure = failed.failure;
      schema_decision = some read.schema_decision;
      source_rows = some read.source_rows;
      written_records = failed.written_records;
      rejected_count = read.rejected_count;
      committed_execution = some (record {
        committed_chunks = failed.committed_chunks;
        chunk_rows = resolve_chunk_rows definition.execution;
        parallelism = parallelism;
        connector_parallelism_limit = limit;
        retry = report_value policy attempts;
      });
      retry = none;
      destination_write = failed.facts;
    }

    abbrev pub outcome_of :
        SourceRead Batch Text
        → Result WritePhaseFailure WritePhaseOutcome
        → List RetryAttempt
        → Result ExecutionFailure ExecutionDetails
    outcome_of read (ok outcome) attempts = ok (success_details read outcome attempts)
    outcome_of read (err failed) attempts = err (write_failure read failed attempts)

    abbrev pub end_of : SourceRead Batch Text → Ended S Panic → LoadEnd S Panic
    end_of read (returned run) = ended (outcome_of read run.result run.attempts) run.state
    end_of read (raised payload) = panicked payload

    unfoldable pub write_read : SourceRead Batch Text → S → Option (LoadEnd S Panic)
    unfolding run_write_phase
    write_read read s = Option.map (end_of read) (
        run_write_phase policy ports.sleep_ms setup.destination_port.begin ports.next_completion
          setup.mode parallelism read.chunks [] s)

    -- After the threshold gate: the pin, then the write phase.
    unfoldable pub persist_and_write : SourceRead Batch Text → S → Option (LoadEnd S Panic)
    unfolding write_read persist_pinned_schema resolved_pre_write_failure
    persist_and_write read s = elim read.pinned_schema_write [
      | none ↦ write_read read s
      | some write ↦
          let (persisted, s') = persist_pinned_schema x yaml is_blank files write s in
          elim persisted [
            | ok u ↦ write_read read s'
            | err failure ↦ some (
                ended
                  (err (
                    resolved_pre_write_failure failure read.schema_decision read.source_rows
                      read.rejected_count))
                  s')
          ]
    ]

    unfoldable pub gate_and_write : SourceRead Batch Text → S → Option (LoadEnd S Panic)
    unfolding persist_and_write resolved_pre_write_failure reject_threshold_failure
    gate_and_write read s =
        let accepted = persist_and_write read s in
        if ltb reject_threshold read.rejected_count
        then some (
            ended
              (err (
                resolved_pre_write_failure
                  (reject_threshold_failure read.rejected_count read.source_rows reject_threshold)
                  read.schema_decision read.source_rows read.rejected_count))
              s)
        else accepted

    unfoldable pub read_and_write : S → Option (LoadEnd S Panic)
    unfolding gate_and_write apply_pending_reject_threshold resolve_chunk_rows
    read_and_write s =
        let (read, s') =
          setup.source_port.read setup.directive setup.merge_keys
            (resolve_chunk_rows definition.execution) s in
        elim read [
          | ok read ↦ gate_and_write read s'
          | err failed ↦
              some (ended (err (apply_pending_reject_threshold failed reject_threshold)) s')
        ]

  unfoldable pub execute_supported_load : S → Option (LoadEnd S Panic)
  unfolding validate_definition read_and_write from_failure
  execute_supported_load s = elim (validate_definition s) [
    | err failure ↦ some (ended (err (from_failure failure)) s)
    | ok setup ↦ read_and_write setup s
  ]
