-- ===== src/Schema/Directive/Sources.antt =====
-- Where the checks of a directive come from, in src/schema.rs.
use mathlib.Core.List.{
  Mem, mem-cons_self, mem-cons_of_mem, mem-append_left, mem-append_right, mem-map_of_mem,
}
use text.Mathlib.TextEquality.{eq_iff}
use data_spark.Prelude.{
  Bool, not, true, false, String, Option, none, some, List, [], ◌∷◌, ◌++◌, map, ◌≡◌, ◌≢◌, refl, sym,
  subst, str_eq, ◌⊎◌, inl, inr, All, All-append, All-imp, All-on_map, Bool-cases, arith,
}
use data_spark.Schema.Types.{FieldType}
use data_spark.Schema.Record.{FieldCheck, NonNullRequirement, TypeOrigin}
use data_spark.Schema.Directive.{
  SchemaTransform, SchemaDirective, PinnedField, FieldOverride, transform_of, overrides_of, pin_of,
  names_pinned, key_check, pin_check, override_check, unpinned_checks, directive_checks,
  json_source_address, required_if, is_not_null, overridden_type,
}

-- What a check on a field that may or may not be null requires.
abbrev pub Requires : Bool → FieldCheck → Type 0
Requires true check = check.required ≡ none
Requires false check = check.required ≡ some NonNullRequirement.schema

-- An override that does not say that a field is not null requires nothing.
abbrev pub RequiresIfSet : Option Bool → FieldCheck → Type 0
RequiresIfSet none check = Requires true check
RequiresIfSet (some nullable) check = Requires nullable check

abbrev pub ExpectsIfSet : Option FieldType → FieldCheck → Type 0
ExpectsIfSet none check = check.expected_type ≡ none
ExpectsIfSet (some t) check = check.expected_type ≡ some (t, TypeOrigin.overridden)

module _ (transform : SchemaTransform) where
  -- The check of a merge key, of a field of the pin and of an override.
  abbrev pub IsOfKey : String → FieldCheck → Type 0
  IsOfKey key check =
      (check.name ≡ key)
      × (check.source ≡ json_source_address transform key)
      × (check.expected_type ≡ none)
      × (check.required ≡ some NonNullRequirement.merge_key)

  abbrev pub IsOfPin : PinnedField → FieldCheck → Type 0
  IsOfPin field check =
      (check.name ≡ field.name)
      × (check.source ≡ json_source_address transform field.name)
      × (check.expected_type ≡ some (field.field_type, TypeOrigin.pinned))
      × Requires field.nullable check

  abbrev pub IsOfOverride : FieldOverride → FieldCheck → Type 0
  IsOfOverride over check =
      (check.name ≡ over.name)
      × (check.source ≡ json_source_address transform over.name)
      × ExpectsIfSet over.field_type check
      × RequiresIfSet over.nullable check

  abbrev pub IsOutside : List PinnedField → String → Type 0
  IsOutside pin name = All (λ field. field.name ≢ name) pin

  module _ (keys : List String) (pin : List PinnedField) (overrides : List FieldOverride) where
    -- The check is that of a merge key, of a field of the pin, or of an override of a field that the
    -- pin does not name.
    abbrev pub IsJustified : FieldCheck → Type 0
    IsJustified check =
        ((key : String) × Mem key keys × IsOfKey key check)
        ⊎ (((field : PinnedField) × Mem field pin × IsOfPin field check)
            ⊎ ((over : FieldOverride) × Mem over overrides
                × IsOutside pin over.name
                × IsOfOverride over check))

    -- Each merge key, field of the pin and override of another field has its check.
    abbrev pub IsComplete : List FieldCheck → Type 0
    IsComplete checks =
        All (λ key. (check : FieldCheck) × Mem check checks × IsOfKey key check) keys
        × All (λ field. (check : FieldCheck) × Mem check checks × IsOfPin field check) pin
        × All
            (λ over.
              ((field : PinnedField) × Mem field pin × (field.name ≡ over.name))
              ⊎ ((check : FieldCheck) × Mem check checks × IsOfOverride over check))
            overrides

  key_check-IsOfKey : (key : String) → IsOfKey key (key_check transform key)
  key_check-IsOfKey key = (refl, refl, refl, refl)

  required_if-Requires :
      (nullable : Bool) (check : FieldCheck)
      → check.required ≡ required_if (not nullable)
      → Requires nullable check
  required_if-Requires true check h = h
  required_if-Requires false check h = h

  pin_check-IsOfPin : (field : PinnedField) → IsOfPin field (pin_check transform field)
  pin_check-IsOfPin field =
      (refl, refl, refl, required_if-Requires field.nullable (pin_check transform field) refl)

  overridden_type-ExpectsIfSet :
      (t : Option FieldType) (check : FieldCheck)
      → check.expected_type ≡ overridden_type t
      → ExpectsIfSet t check
  overridden_type-ExpectsIfSet none check h = h
  overridden_type-ExpectsIfSet (some t) check h = h

  is_not_null-RequiresIfSet :
      (nullable : Option Bool) (check : FieldCheck)
      → check.required ≡ required_if (is_not_null nullable)
      → RequiresIfSet nullable check
  is_not_null-RequiresIfSet none check h = h
  is_not_null-RequiresIfSet (some true) check h = h
  is_not_null-RequiresIfSet (some false) check h = h

  override_check-IsOfOverride :
      (over : FieldOverride) → IsOfOverride over (override_check transform over)
  override_check-IsOfOverride over = (
    refl,
    refl,
    overridden_type-ExpectsIfSet over.field_type (override_check transform over) refl,
    is_not_null-RequiresIfSet over.nullable (override_check transform over) refl,
  )

  names_pinned-IsOutside :
      (pin : List PinnedField) (name : String) → names_pinned pin name ≡ false → IsOutside pin name
  unfolding names_pinned
  names_pinned-IsOutside [] name h = tt
  names_pinned-IsOutside (field ∷ pin) name h = elim (Bool-cases (str_eq field.name name)) [
    | inl e ↦ absurd (ground (arith, e, h))
    | inr e ↦ (
      λ same. cc ((eq_iff field.name name).1 same, e),
      names_pinned-IsOutside pin name (ground (arith, e, h)),
    )
  ]

  names_pinned-Mem :
      (pin : List PinnedField) (name : String)
      → names_pinned pin name ≡ true
      → (field : PinnedField) × Mem field pin × (field.name ≡ name)
  unfolding names_pinned
  names_pinned-Mem [] name h = absurd (cc h)
  names_pinned-Mem (field ∷ pin) name h = elim (Bool-cases (str_eq field.name name)) [
    | inl e ↦ (field, mem-cons_self, (eq_iff field.name name).0 e)
    | inr e ↦
        let (found, listed, same) = names_pinned-Mem pin name (ground (arith, e, h)) in
        (found, mem-cons_of_mem field listed, same)
  ]

  unpinned_checks-All :
      (P : FieldCheck → Type 0) (pin : List PinnedField) (overrides : List FieldOverride)
      → ((over : FieldOverride)
          → Mem over overrides
          → IsOutside pin over.name
          → P (override_check transform over))
      → All P (unpinned_checks transform pin overrides)
  unfolding unpinned_checks
  unpinned_checks-All P pin [] h = tt
  unpinned_checks-All P pin (over ∷ overrides) h =
      let later =
        unpinned_checks-All P pin overrides
          (λ other listed. h other (mem-cons_of_mem over listed)) in
      elim (Bool-cases (names_pinned pin over.name)) [
        | inl t ↦ rw (t, unpinned_checks) later
        | inr f ↦
            rw (f, unpinned_checks)
              (h over mem-cons_self (names_pinned-IsOutside pin over.name f), later)
      ]

  -- The pin names the field, or the override has its check.
  abbrev Covers : List PinnedField → List FieldCheck → FieldOverride → Type 0
  Covers pin checks over =
      ((field : PinnedField) × Mem field pin × (field.name ≡ over.name))
      ⊎ Mem (override_check transform over) checks

  unpinned_checks-Covers :
      (pin : List PinnedField) (overrides : List FieldOverride)
      → All (Covers pin (unpinned_checks transform pin overrides)) overrides
  unfolding unpinned_checks
  unpinned_checks-Covers pin [] = tt
  unpinned_checks-Covers pin (over ∷ overrides) =
      let later = unpinned_checks-Covers pin overrides in
      let rest = unpinned_checks transform pin overrides in
      let this = override_check transform over in
      elim (Bool-cases (names_pinned pin over.name)) [
        | inl t ↦
            let skipped : unpinned_checks transform pin (over ∷ overrides) ≡ rest =
              rw (t, unpinned_checks) refl in
            subst (λ checks. All (Covers pin checks) (over ∷ overrides)) (sym skipped)
              (inl (names_pinned-Mem pin over.name t), later)
        | inr f ↦
            let taken : unpinned_checks transform pin (over ∷ overrides) ≡ this ∷ rest =
              rw (f, unpinned_checks) refl in
            subst (λ checks. All (Covers pin checks) (over ∷ overrides)) (sym taken)
              (
                inr mem-cons_self,
                All-imp (Covers pin rest) (Covers pin (this ∷ rest)) overrides
                    (λ other covered. elim covered [
                      | inl named ↦ inl named
                      | inr listed ↦ inr (mem-cons_of_mem this listed)
                    ])
                    later,
              )
      ]

All-mem : {A : Type 0} (P : A → Type 0) (xs : List A) → ((v : A) → Mem v xs → P v) → All P xs
All-mem P [] h = tt
All-mem P (v ∷ xs) h =
    (h v mem-cons_self, All-mem P xs (λ w listed. h w (mem-cons_of_mem v listed)))

-- The checks that a directive imposes are exactly those of the merge keys, of the fields of the pin and of the overrides of fields that the pin does not name: each check is one of these, with the name, the source address, the expected type and the requirement that the key, the field or the override gives it, and each key, each field of the pin and each override of another field has its check.
pub directive_checks-IsJustified :
    (directive : SchemaDirective) (keys : List String)
    → All
        (IsJustified (transform_of directive) keys (pin_of directive) (overrides_of directive))
        (directive_checks directive keys)
      × IsComplete
          (transform_of directive)
          keys
          (pin_of directive)
          (overrides_of directive)
          (directive_checks directive keys)
unfolding directive_checks
directive_checks-IsJustified directive keys =
    let transform = transform_of directive in
    let pin = pin_of directive in
    let overrides = overrides_of directive in
    let unpinned = unpinned_checks transform pin overrides in
    let of_keys = map (key_check transform) keys in
    let of_pin = map (pin_check transform) pin in
    let P = IsJustified transform keys pin overrides in
    (
      All-append P of_keys (of_pin ++ unpinned)
          (All-on_map P (key_check transform) keys
            (All-mem _ keys (λ key listed. inl (key, listed, key_check-IsOfKey transform key))))
          (All-append P of_pin unpinned
            (All-on_map P (pin_check transform) pin (
              All-mem _ pin
                (λ field listed. inr (inl (field, listed, pin_check-IsOfPin transform field)))))
            (unpinned_checks-All transform P pin overrides (λ over listed outside.
              inr (inr (over, listed, outside, override_check-IsOfOverride transform over))))),
      (
        All-mem _ keys (λ key listed. (
          key_check transform key,
          mem-append_left (of_pin ++ unpinned) (mem-map_of_mem (key_check transform) listed),
          key_check-IsOfKey transform key,
        )),
        All-mem _ pin (λ field listed. (
          pin_check transform field,
          mem-append_right of_keys
              (mem-append_left unpinned (mem-map_of_mem (pin_check transform) listed)),
          pin_check-IsOfPin transform field,
        )),
        All-imp (Covers transform pin unpinned) _ overrides
            (λ over covered. elim covered [
              | inl named ↦ inl named
              | inr listed ↦ inr (
                override_check transform over,
                mem-append_right of_keys (mem-append_right of_pin listed),
                override_check-IsOfOverride transform over,
              )
            ])
            (unpinned_checks-Covers transform pin overrides),
      ),
    )
