-- ===== src/Schema/Observer/Agrees.antt =====
-- The first pass over a CSV source, in src/schema.rs: `TextObserver` judges each record as the
-- resolved checks do.
use data_spark.Prelude.{
  String, Option, none, some, List, [], ◌∷◌, map, ◌≡◌, refl, ap, sym, ◌∙◌, arith, inl, inr,
  Option-cases, length,
}
use data_spark.Prelude.Outcome.{ok}
use data_spark.Schema.Externals.{Externals}
use data_spark.Schema.Types.{InferredType}
use data_spark.Schema.Record.{TextRecord, FieldCheck, RejectedRecord}
use data_spark.Schema.Check.{validate_text_record}
use data_spark.Schema.Directive.{SchemaDirective}
use data_spark.Schema.Pinned.{Yaml}
use data_spark.Schema.Resolve.{Resolution}
use data_spark.Schema.Observer.{
  TextObserver, new_text_observer, observe_text, observe_texts, finish_text,
  merge_text_observations, all_null,
}
use data_spark.Schema.Observer.Independent.{resolve_plan-types}

module _ {Text : Type 0} (x : Externals) (yaml : Yaml Text) (directive : SchemaDirective)
    (merge_keys field_names : List String) where
  -- The types of records, merged in turn from first ones.
  abbrev pub merged : List InferredType → List TextRecord → List InferredType
  merged types [] = types
  merged types (row ∷ rows) = merged (merge_text_observations x yaml types row) rows

  -- The records that pass the checks.
  abbrev pub survivors : List FieldCheck → List TextRecord → List TextRecord
  survivors checks [] = []
  survivors checks (row ∷ rows) = elim (validate_text_record x row checks field_names) [
    | none ↦ row ∷ survivors checks rows
    | some rejection ↦ survivors checks rows
  ]

  survivors-kept :
      (checks : List FieldCheck) (row : TextRecord) (rows : List TextRecord)
      → validate_text_record x row checks field_names ≡ none
      → survivors checks (row ∷ rows) ≡ row ∷ survivors checks rows
  survivors-kept checks row rows e = ground (arith, e)

  survivors-dropped :
      (checks : List FieldCheck) (row : TextRecord) (rows : List TextRecord) (r : RejectedRecord)
      → validate_text_record x row checks field_names ≡ some r
      → survivors checks (row ∷ rows) ≡ survivors checks rows
  survivors-dropped checks row rows r e = ground (arith, e)

  -- The outcomes are those of the checks, the types of all records are merged into the one row of
  -- types, and those of the records that pass into the other.
  abbrev pub Judges :
      List FieldCheck
      → TextObserver
      → List TextRecord
      → List (Option RejectedRecord) × TextObserver
      → Type 0
  Judges checks observer rows run =
      (run.0 ≡ map (λ row. validate_text_record x row checks field_names) rows)
      × (run.1.all_types ≡ merged observer.all_types rows)
      × (run.1.survivor_types ≡ merged observer.survivor_types (survivors checks rows))

  observe_texts-Judges :
      (checks : List FieldCheck) (observer : TextObserver) (rows : List TextRecord)
      → observer.checks ≡ some checks
      → Judges checks observer rows
          (observe_texts x yaml directive merge_keys field_names observer rows)
  unfolding observe_texts observe_text
  observe_texts-Judges checks observer [] h = (refl, refl, refl)
  observe_texts-Judges checks observer (row ∷ rows) h =
      let seen : TextObserver = record observer {
        all_types = merge_text_observations x yaml observer.all_types row;
      } in
      elim (Option-cases (validate_text_record x row checks field_names)) [
        | inl e ↦
            let (outcomes, all, surviving) =
              observe_texts-Judges checks
                (record seen {
                  survivor_types = merge_text_observations x yaml observer.survivor_types row;
                })
                rows h in
            rw (h, e, observe_text)
              (
                ap (λ os. none ∷ os) outcomes,
                all,
                surviving
                    ∙ ap (merged observer.survivor_types) (sym (survivors-kept checks row rows e)),
              )
        | inr (rejection, e) ↦
            let (outcomes, all, surviving) = observe_texts-Judges checks seen rows h in
            rw (h, e, observe_text)
              (
                ap (λ os. some rejection ∷ os) outcomes,
                all,
                surviving
                    ∙ ap (merged observer.survivor_types)
                        (sym (survivors-dropped checks row rows rejection e)),
              )
      ]

  -- The first pass over the records of a CSV source, with its observer as it starts.
  abbrev pub first_pass : List TextRecord → List (Option RejectedRecord) × TextObserver
  first_pass rows =
      observe_texts x yaml directive merge_keys field_names
        (new_text_observer x yaml directive merge_keys field_names) rows

  -- If the first pass over a CSV source resolves at its end, it judged each record, while streaming, as the resolved checks do, and the types that shape inference are merged from exactly the records that pass them; the types of all records are merged from all.
  pub observe_texts-agrees :
      (rows : List TextRecord) (r : Resolution Text)
      → finish_text x yaml directive merge_keys field_names (first_pass rows).1 ≡ ok r
      → ((first_pass rows).0 ≡ map (λ row. validate_text_record x row r.checks field_names) rows)
        × ((first_pass rows).1.all_types ≡ merged (all_null (length field_names)) rows)
        × ((first_pass rows).1.survivor_types
            ≡ merged (all_null (length field_names)) (survivors r.checks rows))
  unfolding finish_text new_text_observer
  observe_texts-agrees rows r h =
      let placeholder = all_null (length field_names) in
      let (s, e, same) =
        resolve_plan-types x yaml directive merge_keys field_names (first_pass rows).1.all_types
          (first_pass rows).1.survivor_types placeholder placeholder r h in
      observe_texts-Judges r.checks (new_text_observer x yaml directive merge_keys field_names) rows
        (rw e (ap some same))
