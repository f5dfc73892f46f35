-- ===== src/Schema/TypeName/Text.antt =====
-- The names of field types as messages and pinned schema files spell them, against the parser, in
-- src/schema.rs.
use data_spark.Prelude.{ℕ, Bool, true, not, ◌&&◌, ◌||◌, some, ◌≡◌, refl, leb, arith}
use data_spark.Schema.Types.{FieldType}
use data_spark.Schema.TypeName.{parse_type_name}
use data_spark.Schema.TypeName.RoundTrip.{
  IsDeclarable, passes_under, passes_at, is_decimal, is_decimal_lem,
}
use data_spark.Schema.Observe.{utf8}
use data_spark.Schema.Misfit.{type_text}

-- The test of one decimal; outside the bounds there is nothing to test.
abbrev text_reads_back : ℕ → ℕ → Bool
text_reads_back p s =
    not (leb 1 p && leb s p)
    || is_decimal p s (parse_type_name (utf8 (type_text (FieldType.decimal p s))))

text_table : passes_under (λ p. passes_under (text_reads_back p) 39) 39 ≡ true
unfolding passes_under parse_type_name type_text utf8
text_table = refl

decimal_text_reads_back :
    (p s : ℕ)
    → IsDeclarable (FieldType.decimal p s)
    → parse_type_name (utf8 (type_text (FieldType.decimal p s))) ≡ some (FieldType.decimal p s)
decimal_text_reads_back p s (lo, hi, le) = is_decimal_lem p s _ (
    ground (
      arith,
      passes_at (text_reads_back p) 39 s (omega arith)
          (passes_at (λ q. passes_under (text_reads_back q) 39) 39 p (omega arith) text_table),
    ))

pub type_text-reads_back :
    (t : FieldType) → IsDeclarable t → parse_type_name (utf8 (type_text t)) ≡ some t
unfolding parse_type_name type_text utf8
type_text-reads_back (FieldType.decimal p s) h = decimal_text_reads_back p s h
type_text-reads_back FieldType.boolean h = refl
type_text-reads_back FieldType.int64 h = refl
type_text-reads_back FieldType.float64 h = refl
type_text-reads_back FieldType.utf8 h = refl
type_text-reads_back FieldType.timestamp h = refl
type_text-reads_back FieldType.timestamptz h = refl
