-- ===== src/Connector/Chunks/Turns.antt =====
-- The bodies of the two reading loops in src/connector.rs: `CsvChunks` and `JsonlChunks`, as streams.
use data_spark.Prelude.{
  ℕ, suc, String, Bool, true, false, not, ◌&&◌, ◌||◌, Option, none, some, List, [], ◌∷◌, str_eq,
  length, if◌then◌else◌,
}
use data_spark.Prelude.Outcome.{Result, ok, err}
use data_spark.Prelude.Text.{show, join}
use data_spark.Failure.{LoadFailure}
use data_spark.Json.{Fields}
use data_spark.Schema.TypeName.{Bytes}
use data_spark.Schema.Externals.{Externals}
use data_spark.Schema.Fit.{is_some}
use data_spark.Schema.Record.{TextRecord, JsonRecord, FieldCheck}
use data_spark.Schema.Check.{validate_text_record, json_record_violates}
use data_spark.Connector.Hash.{update, fnv_offset_basis}
use data_spark.Connector.Source.{
  CsvRead, CsvItem, csv_item, LineReader, JsonlLine, jsonl_line_record,
}
use data_spark.Connector.Chunks.{
  RecordDisposition, PassOneExpectations, cross_check, source_changed, Turn, Reading, Stream,
}

-- `match cross_check(..)? { Skips => {}, Survives => push }`
abbrev disposed : {R : Type 0} → R → Result LoadFailure RecordDisposition → Turn R
disposed r (err failure) = Turn.counted (err failure)
disposed r (ok RecordDisposition.skips) = Turn.counted (ok none)
disposed r (ok RecordDisposition.survives) = Turn.counted (ok (some r))

-- `cross_check(..)?` of a record that does not parse
abbrev unparsed : {R : Type 0} → Result LoadFailure RecordDisposition → Turn R
unparsed (err failure) = Turn.counted (err failure)
unparsed (ok _) = Turn.counted (ok none)

abbrev same_names : List String → List String → Bool
same_names [] [] = true
same_names (a ∷ names) (b ∷ others) = str_eq a b && same_names names others
same_names _ _ = false

unfoldable pub contains_name : String → List String → Bool
contains_name name [] = false
contains_name name (n ∷ names) = str_eq n name || contains_name name names

-- The first key outside the shape.
unfoldable pub outside_shape : List String → Fields → Option String
unfolding contains_name
outside_shape shape Fields.no_fields = none
outside_shape shape (Fields.field key value rest) =
    let later = outside_shape shape rest in if contains_name key shape then later else some key

-- A CSV file as the second pass opens it: a failure to open it, or the header's bytes, the header
-- where it parses, and the records with the bytes of each.
pub record CsvFile : Type 0 where
  pub header_bytes : Bytes
  pub header : Option (List String)
  pub reads : List (CsvRead × Bytes)

-- A line of a JSONL file, or an error of the read.
pub data JsonlRead : Type 0 where
  line : Bytes → JsonlRead
  failed : String → JsonlRead

-- The lines of a JSONL file with their numbers, from `number` on; an error has the number of the
-- line before it.
unfoldable pub numbered : ℕ → List JsonlRead → List (ℕ × JsonlRead)
numbered number [] = []
numbered number (JsonlRead.line bytes ∷ reads) =
    (suc number, JsonlRead.line bytes) ∷ numbered (suc number) reads
numbered number (JsonlRead.failed message ∷ reads) =
    (number, JsonlRead.failed message) ∷ numbered number reads

module _ (x : Externals) (path : String) (checks : List FieldCheck)
    (expectations : PassOneExpectations) where
  abbrev csv_item_turn : List String → CsvItem → Turn TextRecord
  csv_item_turn field_names (CsvItem.rejected rejection) =
      unparsed (cross_check path expectations rejection.line true)
  csv_item_turn field_names (CsvItem.text row) = disposed row (
      cross_check path expectations row.line
        (is_some (validate_text_record x row checks field_names)))

  -- The turn of the loop in `CsvChunks::next_chunk`.
  unfoldable pub csv_turn : List String → CsvRead → Turn TextRecord
  unfolding csv_item cross_check validate_text_record
  csv_turn field_names read = csv_item_turn field_names (csv_item read (length field_names))

  -- `CsvChunks::open`
  unfoldable pub open_csv :
      List String → Result LoadFailure CsvFile → Result LoadFailure (Reading (CsvRead × Bytes))
  unfolding update source_changed
  open_csv field_names (err failure) = err failure
  open_csv field_names (ok file) = elim file.header [
    | none ↦ err (source_changed path "its CSV header no longer parses")
    | some header ↦
        if not (same_names header field_names)
        then err (source_changed path "its CSV header no longer matches the resolved schema")
        else ok (record {
          items = file.reads;
          hash = update fnv_offset_basis file.header_bytes;
          seen = 0;
          yielded_any = false;
        })
  ]

  -- The stream of `CsvChunks`; `build` is `ChunkPlan::build_text_chunk`.
  unfoldable pub csv_chunks :
      {B : Type 0}
      → List String
      → ℕ
      → (List TextRecord → Result LoadFailure B)
      → Result LoadFailure CsvFile
      → Stream (CsvRead × Bytes) TextRecord B
  unfolding csv_turn open_csv
  csv_chunks field_names chunk_rows build source = record {
    raw = λ read. read.1;
    turn = λ read. csv_turn field_names read.0;
    build = build;
    opened = open_csv field_names source;
    path = path;
    expectations = expectations;
    chunk_rows = chunk_rows;
  }

  -- A parsed record of the second pass, whose keys are first checked against the shape.
  abbrev shaped_turn : JsonRecord → Option String → Turn JsonRecord
  shaped_turn row (some key) = Turn.counted (
      err (
        source_changed path (
          join "" (
            "the record at line "
            ∷ show row.line
            ∷ " carries field "
            ∷ x.quoted key
            ∷ " outside the resolved schema shape"
            ∷ []))))
  shaped_turn row none =
      disposed row (cross_check path expectations row.line (json_record_violates x row checks))

  abbrev jsonl_line_turn : List String → JsonlLine → Turn JsonRecord
  jsonl_line_turn shape JsonlLine.blank = Turn.blank
  jsonl_line_turn shape (JsonlLine.rejected rejection) =
      unparsed (cross_check path expectations rejection.line true)
  jsonl_line_turn shape (JsonlLine.json row) = shaped_turn row (outside_shape shape row.entries)

  -- The turn of the loop in `JsonlChunks::next_chunk`.
  unfoldable pub jsonl_turn : LineReader → List String → ℕ × JsonlRead → Turn JsonRecord
  unfolding jsonl_line_record outside_shape cross_check json_record_violates
  jsonl_turn reader shape (number, JsonlRead.line bytes) =
      jsonl_line_turn shape (jsonl_line_record reader bytes number)
  jsonl_turn reader shape (number, JsonlRead.failed message) = Turn.broken (record {
    code = "source_read_failed";
    message = join "" (
        "failed to read JSONL source " ∷ path ∷ " after line " ∷ show number ∷ ": " ∷ message ∷ []);
  })

  abbrev raw_line : ℕ × JsonlRead → Bytes
  raw_line (number, JsonlRead.line bytes) = bytes
  raw_line (number, JsonlRead.failed message) = []

  -- `JsonlChunks::open`
  unfoldable pub open_jsonl :
      Result LoadFailure (List JsonlRead) → Result LoadFailure (Reading (ℕ × JsonlRead))
  unfolding numbered
  open_jsonl (err failure) = err failure
  open_jsonl (ok reads) =
      ok (record {
        items = numbered 0 reads;
        hash = fnv_offset_basis;
        seen = 0;
        yielded_any = false;
      })

  -- The stream of `JsonlChunks`; `build` is `ChunkPlan::build_json_chunk`.
  unfoldable pub jsonl_chunks :
      {B : Type 0}
      → LineReader
      → List String
      → ℕ
      → (List JsonRecord → Result LoadFailure B)
      → Result LoadFailure (List JsonlRead)
      → Stream (ℕ × JsonlRead) JsonRecord B
  unfolding jsonl_turn open_jsonl
  jsonl_chunks reader shape chunk_rows build source = record {
    raw = raw_line;
    turn = jsonl_turn reader shape;
    build = build;
    opened = open_jsonl source;
    path = path;
    expectations = expectations;
    chunk_rows = chunk_rows;
  }
