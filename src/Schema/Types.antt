-- ===== src/Schema/Types.antt =====
-- The observation lattice `InferredType` and the dataset's `FieldType` of src/schema.rs.
pub mod Lattice
use data_spark.Prelude.{ℕ, Bool, true, false, Option, none, some, List, [], ◌∷◌}

pub data InferredType : Type 0 where
  null boolean int64 float64 utf8 : InferredType

pub data FieldType : Type 0 where
  boolean int64 float64 utf8 timestamp timestamptz : FieldType
  decimal : ℕ → ℕ → FieldType

-- `==` of the derived `PartialEq`
abbrev pub same_type : InferredType → InferredType → Bool
same_type InferredType.null InferredType.null = true
same_type InferredType.boolean InferredType.boolean = true
same_type InferredType.int64 InferredType.int64 = true
same_type InferredType.float64 InferredType.float64 = true
same_type InferredType.utf8 InferredType.utf8 = true
same_type _ _ = false

-- `InferredType::merge`. The third arm of the source, for equal types, is the clauses with one type
-- twice.
unfoldable pub merge : InferredType → InferredType → InferredType
merge InferredType.null other = other
merge current InferredType.null = current
merge InferredType.boolean InferredType.boolean = InferredType.boolean
merge InferredType.int64 InferredType.int64 = InferredType.int64
merge InferredType.float64 InferredType.float64 = InferredType.float64
merge InferredType.utf8 InferredType.utf8 = InferredType.utf8
merge InferredType.int64 InferredType.float64 = InferredType.float64
merge InferredType.float64 InferredType.int64 = InferredType.float64
merge _ _ = InferredType.utf8

-- `InferredType::field_type`
unfoldable pub field_type : InferredType → FieldType
field_type InferredType.null = FieldType.utf8
field_type InferredType.utf8 = FieldType.utf8
field_type InferredType.boolean = FieldType.boolean
field_type InferredType.int64 = FieldType.int64
field_type InferredType.float64 = FieldType.float64

-- `FieldType::lattice_type`
unfoldable pub lattice_type : FieldType → Option InferredType
lattice_type FieldType.boolean = some InferredType.boolean
lattice_type FieldType.int64 = some InferredType.int64
lattice_type FieldType.float64 = some InferredType.float64
lattice_type FieldType.utf8 = some InferredType.utf8
lattice_type FieldType.timestamp = none
lattice_type FieldType.timestamptz = none
lattice_type (FieldType.decimal precision scale) = none

unfoldable pub fits_expected_type : InferredType → FieldType → Bool
unfolding lattice_type merge
fits_expected_type observed expected = elim (lattice_type expected) [
  | some lattice_expected ↦ same_type (merge observed lattice_expected) lattice_expected
  | none ↦ false
]

-- A column's observed type: its values' types merged in turn, from `Null`, as the observers do.
unfoldable pub observe_column : InferredType → List InferredType → InferredType
unfolding merge
observe_column seen [] = seen
observe_column seen (t ∷ ts) = observe_column (merge seen t) ts
