-- ===== src/Connector/FirstPass.antt =====
-- The first pass over a source, in src/connector.rs: `read_csv` and `read_jsonl` of
-- `LocalFileSource`, up to the chunk iterators that they set up. `faults` is the error of the sink's
-- writes, if any, by the rejections before it, and `spill_faults` is that of the spill.
pub mod Csv
pub mod Jsonl
use data_spark.Prelude.{
  ℕ, zero, suc, ◌+◌, String, Option, none, some, List, [], ◌∷◌, ◌++◌, length, if◌then◌else◌,
}
use data_spark.Prelude.Names.{contains}
use data_spark.Prelude.Outcome.{Result, ok, err}
use data_spark.Prelude.Text.{show, join}
use data_spark.Failure.{LoadFailure, not_applicable}
use data_spark.Execution.{ExecutionFailure, from_failure, with_rejected_count}
use data_spark.Json.{Value, Fields}
use data_spark.Rejection.{
  RejectionSink, record_rejection, ValidationSpill, fresh_spill, spill_record, discard, merge_spill,
}
use data_spark.Connector.Hash.{fnv_offset_basis, update}
use data_spark.Connector.Source.{
  CsvRead, CsvItem, csv_item, JsonlLine, LineReader, jsonl_line_record,
}
use data_spark.Connector.Chunks.{PassOneExpectations}
use data_spark.Schema.Externals.{Externals}
use data_spark.Schema.TypeName.{Bytes}
use data_spark.Schema.Record.{JsonRecord, RejectedRecord}
use data_spark.Schema.Check.{validate_json_record}
use data_spark.Schema.Directive.{SchemaDirective}
use data_spark.Schema.Pinned.{Yaml}
use data_spark.Schema.Resolve.{Resolution}
use data_spark.Schema.Observer.{
  TextObserver, new_text_observer, observe_text, finish_text, JsonObserver, JsonOutcome,
  new_json_observer, observe_json, finish_json,
}

-- What the file system says of a file: an error of opening it or of its metadata, or its size.
unfoldable pub open_source_file :
    String → String → Result String (Result String ℕ) → Result LoadFailure ℕ
unfolding join
open_source_file path format_label (err error) = err (record {
  code = "source_read_failed";
  message = join "" ("failed to read " ∷ format_label ∷ " source " ∷ path ∷ ": " ∷ error ∷ []);
})
open_source_file path format_label (ok (err error)) = err (record {
  code = "source_read_failed";
  message = join "" ("failed to inspect " ∷ format_label ∷ " source " ∷ path ∷ ": " ∷ error ∷ []);
})
open_source_file path format_label (ok (ok source_bytes)) = ok source_bytes

-- The header, or the csv crate's error.
unfoldable pub read_csv_header :
    String → Result String (List String) → Result LoadFailure (List String)
unfolding join
read_csv_header path (err error) = err (record {
  code = "malformed_csv";
  message = join "" ("malformed CSV syntax in " ∷ path ∷ ": " ∷ error ∷ []);
})
read_csv_header path (ok []) = err (record {
  code = "malformed_csv";
  message = join "" ("CSV source " ∷ path ∷ " must include at least one header field" ∷ []);
})
read_csv_header path (ok (name ∷ names)) = ok (name ∷ names)

-- `SourceRead` with what the chunk iterator is set up with; the fields of a resolution stay in it.
pub record FirstRead (Text : Type 0) : Type 0 where
  pub resolution : Resolution Text
  pub field_names : List String
  pub source_bytes : ℕ
  pub source_rows : ℕ
  pub rejected_count : ℕ
  pub expectations : PassOneExpectations

pub record CsvFile : Type 0 where
  pub size : Result String (Result String ℕ)
  pub header : Result String (List String)
  pub records : List CsvRead
  pub content : Bytes

-- The variables of the loop of `read_csv`
pub record CsvPass : Type 0 where
  pub observer : TextObserver
  pub sink : RejectionSink
  pub parsed_records : ℕ
  pub parse_rejected : ℕ

module _ {Text : Type 0} (x : Externals) (yaml : Yaml Text) (directive : SchemaDirective)
    (merge_keys : List String) (path : String) (faults : ℕ → Option String) where
  -- `sink.record`
  abbrev pub recorded : RejectedRecord → RejectionSink → RejectionSink
  recorded rejection sink = record_rejection (faults sink.count) rejection sink

  abbrev pub judged : Option RejectedRecord → RejectionSink → RejectionSink
  judged none sink = sink
  judged (some rejection) sink = recorded rejection sink

  module _ (field_names : List String) where
    unfoldable pub observe_csv : CsvPass → CsvRead → CsvPass
    unfolding csv_item record_rejection observe_text
    observe_csv pass item = elim (csv_item item (length field_names)) [
      | CsvItem.rejected rejection ↦ record pass {
        parse_rejected = pass.parse_rejected + 1;
        sink = recorded rejection pass.sink;
      }
      | CsvItem.text row ↦
          let outcome = observe_text x yaml directive merge_keys field_names pass.observer row in
          record pass {
            parsed_records = pass.parsed_records + 1;
            observer = outcome.1;
            sink = judged outcome.0 pass.sink;
          }
    ]

    unfoldable pub observe_csvs : CsvPass → List CsvRead → CsvPass
    unfolding observe_csv
    observe_csvs pass [] = pass
    observe_csvs pass (item ∷ items) = observe_csvs (observe_csv pass item) items

    abbrev pub ended_csv : ℕ → Bytes → CsvPass → Resolution Text → FirstRead Text
    ended_csv source_bytes content pass resolution = record {
      resolution = resolution;
      field_names = field_names;
      source_bytes = source_bytes;
      source_rows = pass.parsed_records + pass.parse_rejected;
      rejected_count = pass.sink.count;
      expectations = record {
        rejected_lines = pass.sink.lines;
        records = pass.parsed_records + pass.parse_rejected;
        hash = update fnv_offset_basis content;
      };
    }

    -- What follows the loop.
    unfoldable pub end_csv :
        ℕ → Bytes → CsvPass → Result ExecutionFailure (FirstRead Text) × RejectionSink
    unfolding finish_text with_rejected_count update
    end_csv source_bytes content pass =
        elim (finish_text x yaml directive merge_keys field_names pass.observer) [
          | err failed ↦ (err (with_rejected_count failed pass.sink.count), pass.sink)
          | ok resolution ↦ (ok (ended_csv source_bytes content pass resolution), pass.sink)
        ]

    abbrev pub start_csv : RejectionSink → CsvPass
    start_csv sink = record {
      observer = new_text_observer x yaml directive merge_keys field_names;
      sink = sink;
      parsed_records = 0;
      parse_rejected = 0;
    }

    -- The loop from its start.
    unfoldable pub run_csv : CsvFile → RejectionSink → CsvPass
    unfolding observe_csvs new_text_observer
    run_csv file sink = observe_csvs (start_csv sink) file.records

  unfoldable pub read_csv :
      CsvFile → RejectionSink → Result ExecutionFailure (FirstRead Text) × RejectionSink
  unfolding open_source_file read_csv_header from_failure run_csv end_csv
  read_csv file sink = elim (open_source_file path "CSV" file.size) [
    | err failure ↦ (err (from_failure failure), sink)
    | ok source_bytes ↦ elim (read_csv_header path file.header) [
      | err failure ↦ (err (from_failure failure), sink)
      | ok field_names ↦
          end_csv field_names source_bytes file.content (run_csv field_names file sink)
    ]
  ]
