-- ===== src/Connector/FirstPass/Jsonl.antt =====
-- The first pass over a JSONL source, in src/connector.rs: `read_jsonl`.
pub mod Spill
pub mod Lines
pub mod Artifact
use data_spark.Prelude.{ℕ, ◌+◌, String, Option, none, some, List, [], ◌∷◌, ◌++◌, if◌then◌else◌}
use data_spark.Prelude.Names.{contains}
use data_spark.Prelude.Outcome.{Result, ok, err}
use data_spark.Prelude.Text.{show, join}
use data_spark.Failure.{LoadFailure, not_applicable}
use data_spark.Execution.{ExecutionFailure, from_failure, with_rejected_count}
use data_spark.Json.{Fields}
use data_spark.Rejection.{
  RejectionSink, record_rejection, ValidationSpill, fresh_spill, spill_record, discard, merge_spill,
}
use data_spark.Connector.Hash.{fnv_offset_basis, update}
use data_spark.Connector.Source.{JsonlLine, LineReader, jsonl_line_record}
use data_spark.Schema.Externals.{Externals}
use data_spark.Schema.TypeName.{Bytes}
use data_spark.Schema.Record.{JsonRecord, RejectedRecord}
use data_spark.Schema.Check.{validate_json_record}
use data_spark.Schema.Directive.{SchemaDirective}
use data_spark.Schema.Pinned.{Yaml}
use data_spark.Schema.Resolve.{Resolution}
use data_spark.Schema.Observer.{
  JsonObserver, JsonOutcome, new_json_observer, observe_json, finish_json,
}
use data_spark.Connector.FirstPass.{open_source_file, FirstRead}

-- The variables of the loop of `read_jsonl`; the set of the fields seen has the field names.
pub record JsonPass : Type 0 where
  pub observer : JsonObserver
  pub sink : RejectionSink
  pub spill : ValidationSpill
  pub field_names : List String
  pub parsed_records : ℕ
  pub parse_rejected : ℕ
  pub line_number : ℕ
  pub hash : ℕ

-- What `read_until` returns: a line with its newline, or an error.
pub record JsonFile : Type 0 where
  pub size : Result String (Result String ℕ)
  pub lines : List (Result String Bytes)

unfoldable pub add_field_names : List String → Fields → List String
unfolding contains
add_field_names names Fields.no_fields = names
add_field_names names (Fields.field name value rest) =
    add_field_names (if contains name names then names else names ++ name ∷ []) rest

-- A failure before the schema is decided.
abbrev undecided : LoadFailure → ℕ → ℕ → ExecutionFailure
undecided failure source_rows rejected_count = record {
  failure = failure;
  schema_decision = none;
  source_rows = some source_rows;
  written_records = 0;
  rejected_count = rejected_count;
  committed_execution = none;
  retry = none;
  destination_write = not_applicable;
}

abbrev pub parsed_rows : JsonPass → ℕ
parsed_rows pass = pass.parsed_records + pass.parse_rejected

module _ {Text : Type 0} (x : Externals) (yaml : Yaml Text) (reader : LineReader)
    (directive : SchemaDirective) (merge_keys : List String) (path : String)
    (faults spill_faults : ℕ → Option String) (flush_fault merge_fault : Option String) where
  abbrev pub spilled : JsonOutcome → JsonRecord → ValidationSpill → ValidationSpill
  spilled JsonOutcome.survived row spill = spill
  spilled JsonOutcome.rejected row spill = spill_record (spill_faults spill.entries) row spill

  abbrev pub line_turn : JsonPass → JsonlLine → JsonPass
  line_turn pass JsonlLine.blank = pass
  line_turn pass (JsonlLine.rejected rejection) = record pass {
    parse_rejected = pass.parse_rejected + 1;
    sink = record_rejection (faults pass.sink.count) rejection pass.sink;
  }
  line_turn pass (JsonlLine.json row) =
      let outcome = observe_json x yaml directive merge_keys pass.observer row in
      record pass {
        parsed_records = pass.parsed_records + 1;
        field_names = add_field_names pass.field_names row.entries;
        observer = outcome.1;
        spill = spilled outcome.0 row pass.spill;
      }

  unfoldable pub observe_line : JsonPass → Bytes → JsonPass
  unfolding jsonl_line_record record_rejection observe_json add_field_names spill_record update
  observe_line pass line_bytes =
      let line_number = pass.line_number + 1 in
      line_turn (record pass { line_number = line_number; hash = update pass.hash line_bytes })
        (jsonl_line_record reader line_bytes line_number)

  -- The loop, with the failure of a line that cannot be read.
  unfoldable pub observe_lines :
      JsonPass → List (Result String Bytes) → Result LoadFailure Unit × JsonPass
  unfolding observe_line show join
  observe_lines pass [] = (ok tt, pass)
  observe_lines pass (err error ∷ lines) = (
    err (record {
      code = "source_read_failed";
      message = join "" (
          "failed to read JSONL source "
          ∷ path
          ∷ " after line "
          ∷ show pass.line_number
          ∷ ": "
          ∷ error
          ∷ []);
    }),
    pass,
  )
  observe_lines pass (ok line_bytes ∷ lines) = observe_lines (observe_line pass line_bytes) lines

  abbrev pub first_read : ℕ → JsonPass → RejectionSink → Resolution Text → FirstRead Text
  first_read source_bytes pass sink resolution = record {
    resolution = resolution;
    field_names = pass.field_names;
    source_bytes = source_bytes;
    source_rows = parsed_rows pass;
    rejected_count = sink.count;
    expectations = record {
      rejected_lines = sink.lines;
      records = parsed_rows pass;
      hash = pass.hash;
    };
  }

  -- The spill dropped, and the sink with what it then counts.
  abbrev dropped : JsonPass → RejectionSink
  dropped pass = discard flush_fault pass.spill pass.sink

  -- `Resolution::rejection_for`
  unfoldable pub rejection_for : Resolution Text → JsonRecord → Option RejectedRecord
  unfolding validate_json_record
  rejection_for resolution row = validate_json_record x row resolution.checks

  -- What follows the loop.
  unfoldable pub end_jsonl : ℕ → JsonPass → Result ExecutionFailure (FirstRead Text) × RejectionSink
  unfolding finish_json with_rejected_count discard merge_spill rejection_for
  end_jsonl source_bytes pass = elim pass.field_names [
    | [] ↦ (
      err (
          undecided
            (record {
              code = "malformed_jsonl";
              message =
                  join ""
                    ("JSONL source " ∷ path ∷ " must include at least one record with fields" ∷ []);
            })
            (parsed_rows pass) (dropped pass).count),
      dropped pass,
    )
    | name ∷ names ↦ elim (finish_json x yaml directive merge_keys pass.observer pass.field_names) [
      | err failed ↦ (err (with_rejected_count failed (dropped pass).count), dropped pass)
      | ok resolution ↦
          let sink =
            merge_spill flush_fault merge_fault (rejection_for resolution) pass.spill pass.sink in
          (ok (first_read source_bytes pass sink resolution), sink)
    ]
  ]

  abbrev pub after_lines :
      ℕ
      → Result LoadFailure Unit × JsonPass
      → Result ExecutionFailure (FirstRead Text) × RejectionSink
  after_lines source_bytes (err failure, pass) =
      (err (undecided failure (parsed_rows pass) (dropped pass).count), dropped pass)
  after_lines source_bytes (ok done, pass) = end_jsonl source_bytes pass

  unfoldable pub read_jsonl :
      JsonFile → RejectionSink → Result ExecutionFailure (FirstRead Text) × RejectionSink
  unfolding open_source_file from_failure observe_lines new_json_observer end_jsonl
  read_jsonl file sink = elim (open_source_file path "JSONL" file.size) [
    | err failure ↦ (err (from_failure failure), sink)
    | ok source_bytes ↦ after_lines source_bytes (
        observe_lines
          (record {
            observer = new_json_observer x yaml directive merge_keys;
            sink = sink;
            spill = fresh_spill;
            field_names = [];
            parsed_records = 0;
            parse_rejected = 0;
            line_number = 0;
            hash = fnv_offset_basis;
          })
          file.lines)
  ]
