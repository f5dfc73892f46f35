-- ===== src/Examples/Passes.antt =====
-- The first pass over a source at concrete inputs.
use data_spark.Prelude.{
  ◌==◌, if◌then◌else◌, str_eq, Option, none, some, String, List, [], ◌∷◌, map, ◌≡◌, refl,
}
use data_spark.Prelude.Outcome.{Result, ok, err}
use data_spark.Schema.Types.{lattice_type}
use data_spark.Schema.Record.{TextRecord, RejectedRecord, json_value}
use data_spark.Schema.Directive.{json_source_address}
use data_spark.Schema.Check.{validate_text_record, null_value_rejection}
use data_spark.Schema.Fit.{text_value_fits, json_value_fits}
use data_spark.Schema.Decimal.{parse_decimal_scaled}
use data_spark.Schema.Pinned.{PinnedSchemaFile}
use data_spark.Schema.Resolve.{Resolution}
use data_spark.Schema.Observer.{
  TextObserver, new_text_observer, observe_texts, finish_text, all_null,
}
use data_spark.Schema.Observer.Agrees.{merged, survivors, observe_texts-agrees}
use data_spark.Rejection.{RejectionSink, fresh}
use data_spark.Connector.Source.{CsvRead, LineReader}
use data_spark.Connector.FirstPass.{CsvFile, FirstRead, read_csv}
use data_spark.Connector.FirstPass.Csv.{Rejects, read_csv-Rejects}
use data_spark.Connector.FirstPass.Jsonl.{JsonFile, read_jsonl}
use data_spark.Connector.FirstPass.Jsonl.Artifact.{Leaves, read_jsonl-Leaves}
use data_spark.Json.{Value, Fields, Number}
use data_spark.Execution.{ExecutionFailure}
use data_spark.Schema.TypeName.{Bytes}
use data_spark.Examples.Plans.{codes, plain_yaml, directive, unresolved}

abbrev csv_names : List String
csv_names = "sum" ∷ "id" ∷ "note" ∷ []

abbrev csv_rows : List TextRecord
csv_rows =
    record { line = 2; cells = some "1.5" ∷ some "7" ∷ some "late" ∷ [] }
    ∷ record { line = 3; cells = some "2" ∷ none ∷ some "early" ∷ [] }
    ∷ []

abbrev csv_observed : List (Option RejectedRecord) × TextObserver
csv_observed =
    observe_texts codes plain_yaml directive ("id" ∷ []) csv_names
      (new_text_observer codes plain_yaml directive ("id" ∷ []) csv_names) csv_rows

unfoldable csv_resolved : Resolution PinnedSchemaFile
csv_resolved = elim (finish_text codes plain_yaml directive ("id" ∷ []) csv_names csv_observed.1) [
  | ok resolution ↦ resolution
  | err failed ↦ unresolved
]

csv_finishes :
    finish_text codes plain_yaml directive ("id" ∷ []) csv_names csv_observed.1 ≡ ok csv_resolved
unfolding finish_text csv_resolved observe_texts new_text_observer lattice_type
csv_finishes = refl

observe_texts-agrees_example :
    (csv_observed.0
      ≡ map (λ row. validate_text_record codes row csv_resolved.checks csv_names) csv_rows)
    × (csv_observed.1.all_types
        ≡ merged codes plain_yaml directive ("id" ∷ []) csv_names (all_null 3) csv_rows)
    × (csv_observed.1.survivor_types
        ≡ merged codes plain_yaml directive ("id" ∷ []) csv_names (all_null 3) (
            survivors codes plain_yaml directive
              ("id" ∷ [])
              csv_names
              csv_resolved.checks
              csv_rows))
observe_texts-agrees_example =
    observe_texts-agrees codes plain_yaml directive ("id" ∷ []) csv_names csv_rows csv_resolved
      csv_finishes

abbrev csv_file : CsvFile
csv_file = record {
  size = ok (ok 40);
  header = ok csv_names;
  records =
      CsvRead.row (some 2) ("1.5" ∷ "7" ∷ "late" ∷ [])
      ∷ CsvRead.failed (some 3) "invalid UTF-8"
      ∷ CsvRead.row (some 4) ("2" ∷ "" ∷ "early" ∷ [])
      ∷ CsvRead.row (some 5) ("3" ∷ "8" ∷ [])
      ∷ [];
  content = [];
}

abbrev unread : FirstRead PinnedSchemaFile
unread = record {
  resolution = unresolved;
  field_names = [];
  source_bytes = 0;
  source_rows = 0;
  rejected_count = 0;
  expectations = record { rejected_lines = []; records = 0; hash = 0 };
}

unfoldable csv_read : FirstRead PinnedSchemaFile
csv_read =
    elim (read_csv codes plain_yaml directive ("id" ∷ []) "rows.csv" (λ n. none) csv_file fresh).0 [
      | ok read ↦ read
      | err failed ↦ unread
    ]

csv_reads :
    (read_csv codes plain_yaml directive ("id" ∷ []) "rows.csv" (λ n. none) csv_file fresh).0
    ≡ ok csv_read
unfolding read_csv csv_read lattice_type
csv_reads = refl

csv_read_lines : csv_read.expectations.rejected_lines ≡ 3 ∷ 4 ∷ 5 ∷ []
unfolding read_csv csv_read lattice_type text_value_fits parse_decimal_scaled null_value_rejection
csv_read_lines = refl

read_csv-Rejects_example :
    Rejects codes plain_yaml directive
      ("id" ∷ [])
      "rows.csv"
      (λ n. none)
      csv_read.field_names
      csv_file
      fresh
      csv_read
read_csv-Rejects_example =
    read_csv-Rejects codes plain_yaml directive ("id" ∷ []) "rows.csv" (λ n. none) csv_file fresh
      csv_read csv_reads

-- A decoder and a parser for the lines of the example, told apart by their first byte.
abbrev line_utf8 : Bytes → Result (String × String) String
line_utf8 [] = ok ""
line_utf8 (byte ∷ rest) = if byte == 1 then ok "late" else if byte == 2 then ok "early" else ok "x"

abbrev row_value : Value → String → Value
row_value id note = Value.object (
    Fields.field "sum" Value.null
      (Fields.field "id" id (Fields.field "note" (Value.string note) Fields.no_fields)))

abbrev line_value : String → Result String Value
line_value text =
    if str_eq text "late"
    then ok (row_value (Value.number (Number.pos 7)) "late")
    else if str_eq text "early"
    then ok (row_value Value.null "early")
    else err "expected value"

abbrev line_reader : LineReader
line_reader = record {
  from_utf8 = line_utf8;
  is_blank = λ text. str_eq text "";
  from_str = line_value;
}

abbrev json_file : JsonFile
json_file = record {
  size = ok (ok 9);
  lines = ok (1 ∷ 10 ∷ []) ∷ ok (2 ∷ 10 ∷ []) ∷ ok (10 ∷ []) ∷ ok (3 ∷ 10 ∷ []) ∷ ok (2 ∷ []) ∷ [];
}

abbrev json_pass : Result ExecutionFailure (FirstRead PinnedSchemaFile) × RejectionSink
json_pass =
    read_jsonl codes plain_yaml line_reader directive ("id" ∷ []) "rows.jsonl" (λ n. none)
      (λ n. none) none none json_file fresh

unfoldable json_read : FirstRead PinnedSchemaFile
json_read = elim json_pass.0 [ ok read ↦ read | err failed ↦ unread ]

json_reads : json_pass.0 ≡ ok json_read
unfolding read_jsonl json_read lattice_type
json_reads = refl

json_read_lines : json_read.expectations.rejected_lines ≡ 2 ∷ 4 ∷ 5 ∷ []
unfolding read_jsonl json_read lattice_type null_value_rejection json_value json_source_address
    json_value_fits
json_read_lines = refl

read_jsonl-Leaves_example :
    Leaves codes plain_yaml line_reader directive
      ("id" ∷ [])
      "rows.jsonl"
      json_file
      json_read
      json_pass.1
read_jsonl-Leaves_example =
    read_jsonl-Leaves codes plain_yaml line_reader directive ("id" ∷ []) "rows.jsonl" json_file
      json_read json_reads
