-- ===== src/Schema/Override/Accepted.antt =====
-- Which overrides `from_entries` of src/schema.rs accepts.
use data_spark.Prelude.{
  String, false, Option, none, some, List, [], ◌∷◌, map, ◌≡◌, ◌≢◌, refl, subst, ap, ◌⊎◌, inl, inr,
  All, Bool-cases, Option-cases, arith,
}
use data_spark.Prelude.Names.{contains, Distinct, Fresh, Fresh-cons}
use data_spark.Prelude.Outcome.{ok, ◌>>=◌, bind-ok, ok-injective}
use data_spark.Schema.Externals.{Externals}
use data_spark.Schema.Types.{FieldType}
use data_spark.Schema.TypeName.RoundTrip.{IsDeclarable, parse_type_name_iff}
use data_spark.Schema.Observe.{utf8}
use data_spark.Schema.Directive.{FieldOverride}
use data_spark.Schema.Override.{
  OverrideEntry, sets_nothing, override_type, override_entries, from_entries,
}

abbrev pub Declared : Option FieldType → Type 0
Declared none = Unit
Declared (some t) = IsDeclarable t

-- It sets a property, and its type is one that a schema can declare.
abbrev pub IsEffective : FieldOverride → Type 0
IsEffective over = ((over.field_type ≢ none) ⊎ (over.nullable ≢ none)) × Declared over.field_type

abbrev pub override_names : List FieldOverride → List String
override_names overrides = map (λ over. over.name) overrides

module _ (x : Externals) where
  override_type-Declared :
      (name : String) (type_name : Option String) (t : Option FieldType)
      → override_type x name type_name ≡ ok t
      → Declared t × ((type_name ≢ none) → t ≢ none)
  unfolding override_type
  override_type-Declared name none none h = (tt, λ n e. n refl)
  override_type-Declared name none (some t) h = absurd (cc h)
  override_type-Declared name (some s) none h = absurd (ground arith)
  override_type-Declared name (some s) (some t) h =
      (((parse_type_name_iff (utf8 s) t).0 (ground arith)).1, λ n e. cc e)

  effective :
      (entry : OverrideEntry) (t : Option FieldType)
      → sets_nothing entry.field_type entry.nullable ≡ false
      → ((entry.field_type ≢ none) → t ≢ none)
      → (t ≢ none) ⊎ (entry.nullable ≢ none)
  effective entry t sets kept = elim (Option-cases entry.nullable) [
    | inl e ↦ elim (Option-cases entry.field_type) [
      | inl f ↦ absurd (ground (arith, sets, e, f))
      | inr (s, f) ↦ inl (kept (λ g. cc (f, g)))
    ]
    | inr (b, e) ↦ inr (λ g. cc (e, g))
  ]

  override_entries-IsEffective :
      (seen : List String) (entries : List OverrideEntry) (overrides : List FieldOverride)
      → override_entries x seen entries ≡ ok overrides
      → Fresh seen (override_names overrides)
        × Distinct (override_names overrides)
        × All IsEffective overrides
        × (override_names overrides ≡ map (λ entry. entry.name) entries)
  unfolding override_entries
  override_entries-IsEffective seen [] [] h = (tt, tt, tt, refl)
  override_entries-IsEffective seen [] (o ∷ os) h = absurd (cc h)
  override_entries-IsEffective seen (entry ∷ entries) overrides h =
      elim (Bool-cases (contains entry.name seen)) [
        | inl e ↦ absurd (ground arith)
        | inr new ↦ elim (Bool-cases (sets_nothing entry.field_type entry.nullable)) [
          | inl e ↦ absurd (ground arith)
          | inr sets ↦
              let (t, e, h1) =
                bind-ok (override_type x entry.name entry.field_type)
                  (λ field_type. override_entries x (entry.name ∷ seen) entries >>= λ later. ok (
                    record { name = entry.name; field_type = field_type; nullable = entry.nullable }
                    ∷ later))
                  overrides (ground arith) in
              let (later, f, h2) =
                bind-ok (override_entries x (entry.name ∷ seen) entries) _ overrides h1 in
              let (fresh, distinct, es, same) =
                override_entries-IsEffective (entry.name ∷ seen) entries later f in
              let (declared, kept) = override_type-Declared entry.name entry.field_type t e in
              let (once, free) = (Fresh-cons entry.name seen (override_names later)).0 fresh in
              subst
                (λ os.
                  Fresh seen (override_names os)
                  × Distinct (override_names os)
                  × All IsEffective os
                  × (override_names os ≡ entry.name ∷ map (λ later. later.name) entries))
                (ok-injective _ overrides h2)
                (
                  (new, free),
                  (once, distinct),
                  ((effective entry t sets kept, declared), es),
                  ap (λ names. entry.name ∷ names) same,
                )
        ]
      ]

  -- Overrides that are accepted keep the names of the entries in declaration order, each name once; every override sets its type or its nullability, and a type that it sets is one that a schema can declare.
  pub from_entries-IsEffective :
      (entries : List OverrideEntry) (overrides : List FieldOverride)
      → from_entries x entries ≡ ok overrides
      → (override_names overrides ≡ map (λ entry. entry.name) entries)
        × Distinct (override_names overrides)
        × All IsEffective overrides
  unfolding from_entries
  from_entries-IsEffective entries overrides h =
      let (fresh, distinct, es, same) = override_entries-IsEffective [] entries overrides h in
      (same, distinct, es)
