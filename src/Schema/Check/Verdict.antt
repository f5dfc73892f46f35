-- ===== src/Schema/Check/Verdict.antt =====
-- What the per-record validation of src/schema.rs decides.
use data_spark.Prelude.{
  ℕ, String, Option, none, some, List, [], ◌∷◌, ◌++◌, ◌≡◌, refl, ap, All, inl, inr, Option-cases,
  arith,
}
use data_spark.Json.{Value}
use data_spark.Schema.Externals.{Externals}
use data_spark.Schema.Fit.{is_some}
use data_spark.Schema.Record.{JsonRecord, FieldCheck, json_value, TextRecord, RejectedRecord}
use data_spark.Schema.Check.{
  check_json, check_text, violates, validate_json_record, json_record_violates,
  null_value_rejection, type_rejection, validate_text_record, text_record_json, cell_at,
}

module _ (x : Externals) where
  violates-check :
      (line : ℕ) (check : FieldCheck) (content : Value) (value : Option Value)
      → violates x check value ≡ is_some (check_json x line check content value)
  unfolding violates check_json
  violates-check line check content none = ground arith
  violates-check line check content (some Value.null) = ground arith
  violates-check line check content (some (Value.bool b)) = ground arith
  violates-check line check content (some (Value.number n)) = ground arith
  violates-check line check content (some (Value.string s)) = ground arith
  violates-check line check content (some (Value.array i)) = ground arith
  violates-check line check content (some (Value.object f)) = ground arith

  -- The order-free test of a JSONL record agrees with the ordered validation: a record violates the checks exactly where the validation rejects it.
  pub violates-eq_validate :
      (row : JsonRecord) (checks : List FieldCheck)
      → json_record_violates x row checks ≡ is_some (validate_json_record x row checks)
  unfolding json_record_violates validate_json_record
  violates-eq_validate row [] = refl
  violates-eq_validate row (check ∷ checks) = ground (
    arith,
    violates-eq_validate row checks,
    violates-check row.line check (Value.object row.entries) (json_value check.source row.entries),
  )

  -- What the loop of the validation finds for one check of a record.
  abbrev pub json_finding : JsonRecord → FieldCheck → Option RejectedRecord
  json_finding row check =
      check_json x row.line check (Value.object row.entries) (json_value check.source row.entries)

  abbrev pub text_finding : TextRecord → List String → FieldCheck → Option RejectedRecord
  text_finding row field_names check =
      check_text x row.line check (text_record_json field_names row.cells)
        (cell_at row.cells check.observed_index)

  -- The first check that finds something, the checks before it finding nothing; the rejection is at the
  -- record's line and names the check's field.
  abbrev pub IsFirst :
      (FieldCheck → Option RejectedRecord) → ℕ → List FieldCheck → RejectedRecord → Type 0
  IsFirst finding line checks rejection =
      (before : List FieldCheck) × (check : FieldCheck) × (after : List FieldCheck) × (checks
        ≡ before ++ check ∷ after)
      × All (λ c. finding c ≡ none) before
      × (finding check ≡ some rejection)
      × (rejection.line ≡ line)
      × (rejection.field ≡ some check.name)

  check_json-names :
      (line : ℕ) (check : FieldCheck) (content : Value) (value : Option Value) (r : RejectedRecord)
      → check_json x line check content value ≡ some r
      → (r.line ≡ line) × (r.field ≡ some check.name)
  unfolding check_json null_value_rejection type_rejection
  check_json-names line check content none r h = ground arith
  check_json-names line check content (some Value.null) r h = ground arith
  check_json-names line check content (some (Value.bool b)) r h = ground arith
  check_json-names line check content (some (Value.number n)) r h = ground arith
  check_json-names line check content (some (Value.string s)) r h = ground arith
  check_json-names line check content (some (Value.array i)) r h = ground arith
  check_json-names line check content (some (Value.object f)) r h = ground arith

  check_text-names :
      (line : ℕ) (check : FieldCheck) (content : Value) (cell : Option String) (r : RejectedRecord)
      → check_text x line check content cell ≡ some r
      → (r.line ≡ line) × (r.field ≡ some check.name)
  unfolding check_text null_value_rejection type_rejection
  check_text-names line check content none r h = ground arith
  check_text-names line check content (some value) r h = ground arith

  IsFirst-later :
      (finding : FieldCheck → Option RejectedRecord) (line : ℕ) (check : FieldCheck)
      (checks : List FieldCheck) (r : RejectedRecord)
      → finding check ≡ none
      → IsFirst finding line checks r
      → IsFirst finding line (check ∷ checks) r
  IsFirst-later finding line check checks r e (before, c, after, split, passed, found, at, named) =
      (check ∷ before, c, after, ap (λ cs. check ∷ cs) split, (e, passed), found, at, named)

  IsFirst-here :
      (finding : FieldCheck → Option RejectedRecord) (line : ℕ) (check : FieldCheck)
      (checks : List FieldCheck) (r : RejectedRecord)
      → finding check ≡ some r
      → (r.line ≡ line) × (r.field ≡ some check.name)
      → IsFirst finding line (check ∷ checks) r
  IsFirst-here finding line check checks r e (at, named) =
      ([], check, checks, refl, tt, e, at, named)

  -- A rejection of the JSONL validation is the first one that a check gives, in check order, at the
  -- record's line and on that check's field; every check before it passes.
  pub validate_json_record-IsFirst :
      (row : JsonRecord) (checks : List FieldCheck) (r : RejectedRecord)
      → validate_json_record x row checks ≡ some r
      → IsFirst (json_finding row) row.line checks r
  unfolding validate_json_record
  validate_json_record-IsFirst row [] r h = absurd (ground arith)
  validate_json_record-IsFirst row (check ∷ checks) r h =
      elim (Option-cases (json_finding row check)) [
        | inl e ↦
            IsFirst-later (json_finding row) row.line check checks r e
              (validate_json_record-IsFirst row checks r (ground arith))
        | inr (found, e) ↦ IsFirst-here (json_finding row) row.line check checks r (ground arith) (
            check_json-names row.line check (Value.object row.entries)
              (json_value check.source row.entries) r (ground arith))
      ]

  -- A rejection of the CSV validation is the first one that a check gives, in check order, at the
  -- record's line and on that check's field; every check before it passes.
  pub validate_text_record-IsFirst :
      (row : TextRecord) (checks : List FieldCheck) (field_names : List String) (r : RejectedRecord)
      → validate_text_record x row checks field_names ≡ some r
      → IsFirst (text_finding row field_names) row.line checks r
  unfolding validate_text_record
  validate_text_record-IsFirst row [] field_names r h = absurd (ground arith)
  validate_text_record-IsFirst row (check ∷ checks) field_names r h =
      elim (Option-cases (text_finding row field_names check)) [
        | inl e ↦
            IsFirst-later (text_finding row field_names) row.line check checks r e
              (validate_text_record-IsFirst row checks field_names r (ground arith))
        | inr (found, e) ↦
            IsFirst-here (text_finding row field_names) row.line check checks r (ground arith) (
              check_text-names row.line check (text_record_json field_names row.cells)
                (cell_at row.cells check.observed_index) r (ground arith))
      ]
