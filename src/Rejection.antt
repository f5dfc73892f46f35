-- ===== src/Rejection.antt =====
-- The rejection sink of src/rejection.rs: `RejectionSink` and `ValidationSpill`. A file is the list
-- of what its lines hold, and an absent file is `none`. Each operation takes the error of its own
-- write, where the file system refuses it.
pub mod Order
use data_spark.Prelude.{
  ℕ, zero, suc, ◌+◌, String, Bool, true, false, ◌||◌, Option, none, some, List, [], ◌∷◌, ◌++◌, map,
  leb, ◌==◌, if◌then◌else◌, length,
}
use data_spark.Prelude.Outcome.{Result, ok, err}
use data_spark.Json.{Value, Fields, Number, get}
use data_spark.Schema.Record.{JsonRecord, RejectedRecord, artifact_value}

pub record RejectionSink : Type 0 where
  pub artifact : Option (List Value)
  pub count : ℕ
  pub lines : List ℕ
  pub io_error : Option String

-- `RejectionSink::new`
abbrev pub fresh : RejectionSink
fresh = record { artifact = none; count = 0; lines = []; io_error = none }

abbrev pub contents : Option (List Value) → List Value
contents none = []
contents (some values) = values

-- `write_line`, or its error
unfoldable pub write_line : Option String → Value → RejectionSink → RejectionSink
write_line none value sink = record sink { artifact = some (contents sink.artifact ++ value ∷ []) }
write_line (some error) value sink = record sink { io_error = some error }

-- `RejectionSink::record`
unfoldable pub record_rejection : Option String → RejectedRecord → RejectionSink → RejectionSink
unfolding write_line artifact_value
record_rejection fault rejected sink =
    let counted = record sink {
      count = sink.count + 1;
      lines = sink.lines ++ rejected.line ∷ [];
    } in
    elim sink.io_error [
      | some error ↦ counted
      | none ↦ write_line fault (artifact_value rejected) counted
    ]

pub record ValidationSpill : Type 0 where
  pub written : List JsonRecord
  pub entries : ℕ
  pub io_error : Option String

abbrev pub fresh_spill : ValidationSpill
fresh_spill = record { written = []; entries = 0; io_error = none }

-- `ValidationSpill::record`
unfoldable pub spill_record : Option String → JsonRecord → ValidationSpill → ValidationSpill
spill_record fault row spill = elim spill.io_error [
  | some error ↦ record spill { entries = spill.entries + 1 }
  | none ↦ elim fault [
    | some error ↦ record spill { entries = spill.entries + 1; io_error = some error }
    | none ↦ record spill { entries = spill.entries + 1; written = spill.written ++ row ∷ [] }
  ]
]

-- The first of two errors.
abbrev pub first_error : Option String → Option String → Option String
first_error (some error) later = some error
first_error none later = later

-- `ValidationSpill::finish`: the stored error, or that of the flush.
unfoldable pub finish : Option String → ValidationSpill → Option String
finish flush_fault spill = first_error spill.io_error flush_fault

-- `ValidationSpill::discard`
unfoldable pub discard : Option String → ValidationSpill → RejectionSink → RejectionSink
unfolding finish
discard flush_fault spill sink = record sink {
  io_error = first_error sink.io_error (finish flush_fault spill);
}

-- `value["line"].as_u64()`
unfoldable pub line_of : Value → Option ℕ
unfolding get
line_of (Value.object entries) = elim (get "line" entries) [
  | some (Value.number (Number.pos line)) ↦ some line
  | _ ↦ none
]
line_of _ = none

-- `next_artifact_line`, for each line of the artifact
unfoldable pub artifact_lines : List Value → Result String (List (ℕ × Value))
unfolding line_of
artifact_lines [] = ok []
artifact_lines (value ∷ values) = elim (line_of value) [
  | none ↦ err "rejected-records artifact line without a line number"
  | some line ↦ elim (artifact_lines values) [
    | err error ↦ err error
    | ok rest ↦ ok ((line, value) ∷ rest)
  ]
]

-- `next_spill_rejection`, for each entry of the spill
unfoldable pub spill_rejections :
    (JsonRecord → Option RejectedRecord) → List JsonRecord → List RejectedRecord
spill_rejections render [] = []
spill_rejections render (row ∷ rows) = elim (render row) [
  | none ↦ spill_rejections render rows
  | some rejection ↦ rejection ∷ spill_rejections render rows
]

abbrev pub entry_of : RejectedRecord → ℕ × Value
entry_of rejection = (rejection.line, artifact_value rejection)

-- The loop of `merge_spill_file`: the artifact's line goes first on a tie.
unfoldable pub merge_loop : List (ℕ × Value) → List RejectedRecord → List (ℕ × Value)
merge_loop [] [] = []
merge_loop (a ∷ artifact) [] = a ∷ merge_loop artifact []
merge_loop [] (r ∷ spill) = entry_of r ∷ merge_loop [] spill
merge_loop (a ∷ artifact) (r ∷ spill) = elim (leb a.0 r.line) [
  | true ↦ a ∷ merge_loop artifact (r ∷ spill)
  | false ↦ entry_of r ∷ merge_loop (a ∷ artifact) spill
]

-- The artifact of the merged lines: no file where there is none.
abbrev pub merged_file : List (ℕ × Value) → Option (List Value)
merged_file [] = none
merged_file (m ∷ merged) = some (map (λ l. l.1) (m ∷ merged))

-- What follows the loop of `merge_spill_file`.
unfoldable pub installed : List (ℕ × Value) → RejectionSink → RejectionSink
installed merged sink = record sink {
  artifact = merged_file merged;
  count = length merged;
  lines = map (λ l. l.0) merged;
}

-- `fault` is an error of the files that the merge opens, writes and renames.
unfoldable pub merge_spill_file :
    Option String
    → (JsonRecord → Option RejectedRecord)
    → List JsonRecord
    → RejectionSink
    → Result String RejectionSink
unfolding artifact_lines spill_rejections merge_loop installed
merge_spill_file (some error) render rows sink = err error
merge_spill_file none render rows sink = elim (artifact_lines (contents sink.artifact)) [
  | err error ↦ err error
  | ok artifact ↦ ok (installed (merge_loop artifact (spill_rejections render rows)) sink)
]

abbrev pub is_some : Option String → Bool
is_some none = false
is_some (some error) = true

unfoldable pub merge_spill :
    Option String
    → Option String
    → (JsonRecord → Option RejectedRecord)
    → ValidationSpill
    → RejectionSink
    → RejectionSink
unfolding finish merge_spill_file
merge_spill flush_fault fault render spill sink =
    let error = first_error sink.io_error (finish flush_fault spill) in
    if is_some error || spill.entries == 0
    then record sink { io_error = error }
    else elim (merge_spill_file fault render spill.written sink) [
      | err merge_error ↦ record sink { io_error = some merge_error }
      | ok merged ↦ merged
    ]

-- `take_io_error`
unfoldable pub take_io_error : Option String → RejectionSink → Option String × RejectionSink
take_io_error flush_fault sink =
    (first_error sink.io_error flush_fault, record sink { io_error = none })
