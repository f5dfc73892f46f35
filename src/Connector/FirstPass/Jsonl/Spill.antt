-- ===== src/Connector/FirstPass/Jsonl/Spill.antt =====
-- The line order of what a JSONL source is read to, in src/connector.rs, and of the spill.
use data_spark.Prelude.{
  ℕ, ◌+◌, ◌≤◌, String, none, List, [], ◌∷◌, ◌++◌, map, length, length-append, ◌≡◌, refl, ap, sym,
  subst, arith, inl, inr, All, All-append, Bool-cases,
}
use data_spark.Prelude.Outcome.{Result, ok, err, Result-cases}
use data_spark.Json.{Value}
use data_spark.Rejection.{ValidationSpill, spill_record}
use data_spark.Rejection.Order.{IsOrderedFrom}
use data_spark.Connector.Source.{JsonlLine, LineReader, jsonl_line_record, parsed, trim_last}
use data_spark.Schema.TypeName.{Bytes}
use data_spark.Schema.Record.{JsonRecord}

pub IsOrderedFrom-append :
    (low : ℕ) (lines : List ℕ) (last : ℕ)
    → IsOrderedFrom low lines
    → All (λ line. line ≤ last) lines
    → low ≤ last
    → IsOrderedFrom low (lines ++ last ∷ [])
IsOrderedFrom-append low [] last h below b = (b, tt)
IsOrderedFrom-append low (line ∷ lines) last h below b =
    (h.0, IsOrderedFrom-append line lines last h.1 below.1 below.0)

abbrev pub row_lines : List JsonRecord → List ℕ
row_lines rows = map (λ row. row.line) rows

pub IsOrderedFrom-from :
    (low start : ℕ) (lines : List ℕ)
    → low ≤ start
    → IsOrderedFrom start lines
    → IsOrderedFrom low lines
IsOrderedFrom-from low start [] b h = tt
IsOrderedFrom-from low start (line ∷ lines) b h = (omega (arith, b, h.0), h.1)

-- The line of what a line becomes.
abbrev pub HasLine : ℕ → JsonlLine → Type 0
HasLine line JsonlLine.blank = Unit
HasLine line (JsonlLine.json row) = row.line ≡ line
HasLine line (JsonlLine.rejected rejection) = rejection.line ≡ line

module _ (reader : LineReader) where
  parsed-HasLine :
      (n : ℕ) (line : String) (value : Result String Value) → HasLine n (parsed reader n line value)
  parsed-HasLine n line (ok Value.null) = refl
  parsed-HasLine n line (ok (Value.bool b)) = refl
  parsed-HasLine n line (ok (Value.number v)) = refl
  parsed-HasLine n line (ok (Value.string s)) = refl
  parsed-HasLine n line (ok (Value.object entries)) = refl
  parsed-HasLine n line (ok (Value.array items)) = refl
  parsed-HasLine n line (err message) = refl

  pub jsonl_line_record-HasLine :
      (line_bytes : Bytes) (n : ℕ) → HasLine n (jsonl_line_record reader line_bytes n)
  unfolding jsonl_line_record
  jsonl_line_record-HasLine line_bytes n =
      let decoded = reader.from_utf8 (trim_last b'\r' (trim_last b'\n' line_bytes)) in
      elim (Result-cases decoded) [
        | inr ((message, lossy), e) ↦ rw (e, jsonl_line_record) refl
        | inl (line, e) ↦ elim (Bool-cases (reader.is_blank line)) [
          | inl f ↦ rw (e, f, jsonl_line_record) tt
          | inr f ↦ rw (e, f, jsonl_line_record) (parsed-HasLine n line (reader.from_str line))
        ]
      ]

-- The spill has no error, counts its records, and has them in line order, up to a line.
abbrev pub SpillIsInOrder : ℕ → ValidationSpill → Type 0
SpillIsInOrder last spill =
    (spill.io_error ≡ none)
    × (spill.entries ≡ length spill.written)
    × IsOrderedFrom 0 (row_lines spill.written)
    × All (λ line. line ≤ last) (row_lines spill.written)

spill_record-clean :
    (row : JsonRecord) (spill : ValidationSpill)
    → spill.io_error ≡ none
    → spill_record none row spill
      ≡ record spill { entries = spill.entries + 1; written = spill.written ++ row ∷ [] }
unfolding spill_record
spill_record-clean row spill clean = ground (arith, clean)

row_lines-append :
    (front : List JsonRecord) (row : JsonRecord)
    → row_lines front ++ row.line ∷ [] ≡ row_lines (front ++ row ∷ [])
row_lines-append [] row = refl
row_lines-append (first ∷ front) row = ap (λ rest. first.line ∷ rest) (row_lines-append front row)

pub spill_record-IsInOrder :
    (row : JsonRecord) (spill : ValidationSpill) (last : ℕ)
    → row.line ≡ last
    → SpillIsInOrder last spill
    → SpillIsInOrder last (spill_record none row spill)
      × ((spill_record none row spill).written ≡ spill.written ++ row ∷ [])
spill_record-IsInOrder row spill last at (clean, counted, lines, below) =
    let bound : row.line ≤ last = omega (arith, at) in
    let ordered =
      IsOrderedFrom-append 0 (row_lines spill.written) row.line lines
        (subst (λ n. All (λ line. line ≤ n) (row_lines spill.written)) (sym at) below)
        (omega arith) in
    let bounded =
      All-append (λ line. line ≤ last) (row_lines spill.written) (row.line ∷ []) below
        (bound, tt) in
    let longer = row_lines-append spill.written row in
    rw (spill_record-clean row spill clean) (
      (
        clean,
        omega (arith, counted, length-append spill.written (row ∷ [])),
        subst (IsOrderedFrom 0) longer ordered,
        subst (All (λ line. line ≤ last)) longer bounded,
      ),
      refl,
    )
