-- ===== src/Schema/Pinned/Contract.antt =====
-- What a pinned schema file of src/schema.rs guarantees, and that it is read back as it was written.
use data_spark.Prelude.{
  ℕ, String, Option, none, some, List, [], ◌∷◌, map, ◌≡◌, ◌≢◌, refl, sym, subst, inl, inr, All,
  if◌then◌else◌, Bool-cases, Option-cases, arith,
}
use data_spark.Prelude.Names.{contains, Distinct, Fresh, Fresh-cons, Fresh-none}
use data_spark.Prelude.Outcome.{Result, ok, err, ◌>>=◌, map_err, bind-ok, ok-injective}
use data_spark.Failure.{LoadFailure}
use data_spark.Schema.Externals.{Externals}
use data_spark.Schema.TypeName.{parse_type_name}
use data_spark.Schema.TypeName.RoundTrip.{IsDeclarable, parse_type_name_iff}
use data_spark.Schema.TypeName.Text.{type_text-reads_back}
use data_spark.Schema.Observe.{utf8}
use data_spark.Schema.Directive.{PinnedField}
use data_spark.Schema.Pinned.{
  PinnedFieldFile, PinnedSchemaFile, Yaml, read_field, read_fields, validate_file, from_yaml,
  to_yaml, field_file, check_version, is_no_fields, invalid_pinned_schema, raw_fields,
}

abbrev pub names_of : List PinnedField → List String
names_of fields = map (λ field. field.name) fields

-- At least one field, each name once, each type one that a schema can declare.
abbrev pub IsPin : List PinnedField → Type 0
IsPin fields =
    (fields ≢ []) × Distinct (names_of fields) × All (λ field. IsDeclarable field.field_type) fields

module _ {Text : Type 0} (x : Externals) (yaml : Yaml Text) where
  read_field-back :
      (field : PinnedField)
      → IsDeclarable field.field_type
      → read_field x yaml (field_file x yaml field) ≡ ok field
  unfolding read_field field_file
  read_field-back field d = rw (type_text-reads_back field.field_type d, read_field) refl

  read_fields-back :
      (seen : List String) (fields : List PinnedField)
      → Fresh seen (names_of fields)
      → Distinct (names_of fields)
      → All (λ field. IsDeclarable field.field_type) fields
      → read_fields x yaml seen (map (field_file x yaml) fields) ≡ ok fields
  unfolding read_fields field_file
  read_fields-back seen [] fresh distinct ds = refl
  read_fields-back seen (field ∷ fields) (new, fresh) (once, distinct) (d, ds) =
      rw
        (
          new,
          read_field-back field d,
          read_fields-back (field.name ∷ seen) fields
              ((Fresh-cons field.name seen (names_of fields)).1 (once, fresh)) distinct ds,
        )
        refl

  -- A pinned schema with at least one field, distinct names and types that a schema can declare is read back from the text that it is written to, where YAML text is read back as the file it was written from.
  pub from_yaml-to_yaml :
      (pin : List PinnedField)
      → ((file : PinnedSchemaFile) → yaml.from_str (yaml.to_string file) ≡ ok file)
      → IsPin pin
      → from_yaml x yaml (to_yaml x yaml pin) ≡ ok pin
  unfolding from_yaml to_yaml validate_file
  from_yaml-to_yaml [] back (some_field, distinct, ds) = absurd (some_field refl)
  from_yaml-to_yaml (field ∷ fields) back (some_field, distinct, ds) =
      rw
        (
          back _,
          read_fields-back [] (field ∷ fields) (Fresh-none (names_of (field ∷ fields))) distinct ds,
        )
        refl

  read_field-IsDeclarable :
      (raw : PinnedFieldFile) (field : PinnedField)
      → read_field x yaml raw ≡ ok field
      → (field.name ≡ raw.name) × IsDeclarable field.field_type
  unfolding read_field
  read_field-IsDeclarable raw field h =
      elim (Option-cases (parse_type_name (utf8 raw.field_type))) [
        | inl e ↦ absurd (ground arith)
        | inr (t, e) ↦
            let typed : field.field_type ≡ t = ground arith in
            (
              ground arith,
              subst (λ u. IsDeclarable u) (sym typed)
                  ((parse_type_name_iff (utf8 raw.field_type) t).0 e).1,
            )
      ]

  read_fields-IsDeclarable :
      (seen : List String) (raws : List PinnedFieldFile) (fields : List PinnedField)
      → read_fields x yaml seen raws ≡ ok fields
      → Fresh seen (names_of fields)
        × Distinct (names_of fields)
        × All (λ field. IsDeclarable field.field_type) fields
        × ((raws ≢ []) → fields ≢ [])
  unfolding read_fields
  read_fields-IsDeclarable seen [] [] h = (tt, tt, tt, λ n e. n refl)
  read_fields-IsDeclarable seen [] (f ∷ fs) h = absurd (ground arith)
  read_fields-IsDeclarable seen (raw ∷ raws) fields h = elim (Bool-cases (contains raw.name seen)) [
    | inl e ↦ absurd (ground arith)
    | inr new ↦
        let (field, e, h1) =
          bind-ok (read_field x yaml raw)
            (λ field. read_fields x yaml (raw.name ∷ seen) raws >>= λ others. ok (field ∷ others))
            fields (ground arith) in
        let (others, f, h2) = bind-ok (read_fields x yaml (raw.name ∷ seen) raws) _ fields h1 in
        let (fresh, distinct, ds, _) = read_fields-IsDeclarable (raw.name ∷ seen) raws others f in
        let (named, d) = read_field-IsDeclarable raw field e in
        subst
          (λ fs.
            Fresh seen (names_of fs)
            × Distinct (names_of fs)
            × All (λ field. IsDeclarable field.field_type) fs
            × ((raw ∷ raws ≢ []) → fs ≢ []))
          (ok-injective (field ∷ others) fields h2)
          (let (once, free) = (Fresh-cons raw.name seen (names_of others)).0 fresh in
            (rw named (new, free), rw named (once, distinct), (d, ds), λ n e. cc e))
  ]

  check_version-ok :
      (version : Option ℕ) (rest : Result LoadFailure (List PinnedField)) (pin : List PinnedField)
      → check_version version rest ≡ ok pin
      → rest ≡ ok pin
  check_version-ok none rest pin h = absurd (cc h)
  check_version-ok (some version) rest pin h = ground arith

  present-IsPin :
      (raws : List PinnedFieldFile) (message : String) (pin : List PinnedField)
      → (if is_no_fields raws
          then err (invalid_pinned_schema message)
          else read_fields x yaml [] raws)
        ≡ ok pin
      → IsPin pin
  present-IsPin [] message pin h = absurd (cc h)
  present-IsPin (raw ∷ raws) message pin h =
      let (fresh, distinct, ds, present) = read_fields-IsDeclarable [] (raw ∷ raws) pin h in
      (present (λ e. cc e), distinct, ds)

  validate_file-IsPin :
      (file : PinnedSchemaFile) (pin : List PinnedField)
      → validate_file x yaml file ≡ ok pin
      → IsPin pin
  unfolding validate_file
  validate_file-IsPin file pin h =
      present-IsPin (raw_fields file.fields) "pinned schema must declare at least one field" pin
        (check_version-ok file.version _ pin h)

  -- A pinned schema file that is accepted has at least one field, each name once, and each type is one that a schema can declare: a decimal has its precision from 1 to 38 and its scale at most that.
  pub from_yaml-IsPin :
      (text : Text) (pin : List PinnedField) → from_yaml x yaml text ≡ ok pin → IsPin pin
  unfolding from_yaml validate_file
  from_yaml-IsPin text pin h =
      let (file, e, h1) = bind-ok (map_err _ (yaml.from_str text)) _ pin h in
      validate_file-IsPin file pin h1
