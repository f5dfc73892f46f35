-- ===== src/Connector/Source.antt =====
-- `csv_item` and `jsonl_line_record` of src/connector.rs: what one record of the CSV reader and one
-- line of a JSONL file become.
use data_spark.Prelude.{
  ℕ, String, Bool, not, Option, none, some, List, [], ◌∷◌, map, length, ◌==◌, if◌then◌else◌,
}
use data_spark.Prelude.Outcome.{Result}
use data_spark.Prelude.Text.{show, join}
use data_spark.Json.{Value, items_of}
use data_spark.Schema.TypeName.{Bytes}
use data_spark.Schema.Record.{TextRecord, JsonRecord, RejectedRecord}

-- What the csv crate returns for one record: an error or the record's fields, at a position that it
-- may not know.
pub data CsvRead : Type 0 where
  failed : Option ℕ → String → CsvRead
  row : Option ℕ → List String → CsvRead

pub data CsvItem : Type 0 where
  text : TextRecord → CsvItem
  rejected : RejectedRecord → CsvItem

-- `position.map(line).unwrap_or(0)`
abbrev line_or_zero : Option ℕ → ℕ
line_or_zero none = 0
line_or_zero (some line) = line

-- A rejected record that names no field.
abbrev pub malformed : ℕ → String → String → Value → RejectedRecord
malformed line code message content = record {
  line = line;
  code = code;
  field = none;
  source_field = none;
  message = message;
  content = content;
}

-- An empty value is a null cell.
abbrev pub cell : String → Option String
cell String.[] = none
cell (String.◌∷◌ c s) = some (String.◌∷◌ c s)

unfoldable pub csv_item : CsvRead → ℕ → CsvItem
unfolding show join items_of
csv_item (CsvRead.failed position message) field_count =
    CsvItem.rejected (malformed (line_or_zero position) "malformed_csv_record" message Value.null)
csv_item (CsvRead.row position values) field_count =
    if not (length values == field_count)
    then CsvItem.rejected (
        malformed (line_or_zero position) "malformed_csv_record"
          (join "" ("expected " ∷ show field_count ∷ " fields, found " ∷ show (length values) ∷ []))
          (Value.array (items_of (map Value.string values))))
    else CsvItem.text (record { line = line_or_zero position; cells = map cell values })

pub data JsonlLine : Type 0 where
  blank : JsonlLine
  json : JsonRecord → JsonlLine
  rejected : RejectedRecord → JsonlLine

-- What a line is read with: UTF-8 decoding (an error has its message and the lossy text), the test
-- `line.trim().is_empty()` and serde_json's parser.
pub record LineReader : Type 0 where
  pub from_utf8 : Bytes → Result (String × String) String
  pub is_blank : String → Bool
  pub from_str : String → Result String Value

-- The slice without its last byte, where that is `byte`.
unfoldable pub trim_last : ℕ → Bytes → Bytes
trim_last byte [] = []
trim_last byte (b ∷ []) = if b == byte then [] else b ∷ []
trim_last byte (b ∷ c ∷ rest) = b ∷ trim_last byte (c ∷ rest)

module _ (reader : LineReader) where
  abbrev pub parsed : ℕ → String → Result String Value → JsonlLine
  parsed line_number line (Result.ok (Value.object entries)) =
      JsonlLine.json (record { line = line_number; entries = entries })
  parsed line_number line (Result.ok _) = JsonlLine.rejected (
      malformed line_number "malformed_jsonl_record" "each JSONL record must be a JSON object"
        (Value.string line))
  parsed line_number line (Result.err message) =
      JsonlLine.rejected
        (malformed line_number "malformed_jsonl_record" message (Value.string line))

  unfoldable pub jsonl_line_record : Bytes → ℕ → JsonlLine
  unfolding trim_last
  jsonl_line_record line_bytes line_number =
      elim (reader.from_utf8 (trim_last b'\r' (trim_last b'\n' line_bytes))) [
        | Result.err (message, lossy) ↦
            JsonlLine.rejected
              (malformed line_number "malformed_jsonl_record" message (Value.string lossy))
        | Result.ok line ↦
            if reader.is_blank line
            then JsonlLine.blank
            else parsed line_number line (reader.from_str line)
      ]
