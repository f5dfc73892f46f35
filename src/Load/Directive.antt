-- ===== src/Load/Directive.antt =====
-- `resolve_schema_directive` and `persist_pinned_schema` of src/lib.rs. The file system is a
-- parameter over a state `S` of the outside world.
use data_spark.Prelude.{
  String, Bool, true, false, ◌&&◌, Option, none, some, List, [], ◌∷◌, if◌then◌else◌, str_eq,
}
use data_spark.Prelude.Text.{join}
use data_spark.Prelude.Outcome.{Result, ok, err, ◌>>=◌, ◌>>◌, map_err}
use data_spark.Failure.{LoadFailure}
use data_spark.Schema.Externals.{Externals}
use data_spark.Schema.Directive.{SchemaTransform, SchemaDirective, FieldOverride, DriftPolicy}
use data_spark.Schema.Override.{OverrideEntry, from_entries}
use data_spark.Schema.Transform.{TransformConfig, from_config}
use data_spark.Schema.Pinned.{Yaml, from_yaml}
use data_spark.Schema.Plan.{PinnedSchemaWrite}
use data_spark.Load.Config.{SchemaConfig}

-- `io::Error` of a read: the file is not there, or another error's text.
pub data ReadError : Type 0 where
  not_found : ReadError
  other : String → ReadError

pub record Files (S Text : Type 0) : Type 0 where
  pub read_to_string : String → S → Result ReadError Text
  pub create_dir_all : String → S → Result String (Unit {0}) × S
  pub write : String → Text → S → Result String (Unit {0}) × S
  -- `Path::parent`, without an empty one
  pub parent : String → Option String

abbrev no_transform : SchemaTransform
no_transform = record { flatten = []; select = none; rename = [] }

abbrev invalid_schema_config : String → LoadFailure
invalid_schema_config message = record { code = "invalid_schema_config"; message = message }

abbrev fail_if : Bool → String → Result LoadFailure Unit
fail_if true message = err (invalid_schema_config message)
fail_if false message = ok tt

abbrev is_empty_text : Option String → Bool
is_empty_text none = false
is_empty_text (some text) = str_eq text ""

abbrev is_empty_list : Option (List OverrideEntry) → Bool
is_empty_list (some []) = true
is_empty_list _ = false

abbrev is_absent : {A : Type 0} → Option A → Bool
is_absent none = true
is_absent (some a) = false

abbrev is_present : {A : Type 0} → Option A → Bool
is_present none = false
is_present (some a) = true

-- The guards on the `schema` block, in their order.
unfoldable pub check_schema_config : SchemaConfig → Result LoadFailure Unit
check_schema_config config =
    fail_if (is_empty_text config.pinned_path) "schema.pinned_path must not be empty"
    >> (fail_if (is_empty_list config.overrides)
          "schema.overrides must declare at least one override"
        >> (fail_if (is_absent config.pinned_path && is_present config.drift_policy)
              "schema.drift_policy requires schema.pinned_path"
            >> fail_if (is_absent config.pinned_path && is_absent config.overrides)
                "a schema block must set schema.pinned_path or schema.overrides"))

unfoldable pub drift_policy_of : Option String → Result LoadFailure DriftPolicy
drift_policy_of none = ok DriftPolicy.fail
drift_policy_of (some text) =
    if str_eq text "fail"
    then ok DriftPolicy.fail
    else if str_eq text "allow_additive_nullable"
    then ok DriftPolicy.allow_additive_nullable
    else err (record {
      code = "unsupported_drift_policy";
      message = join "" ("unsupported drift policy: " ∷ text ∷ []);
    })

module _ {S Text : Type 0} (x : Externals) (yaml : Yaml Text) (is_blank : String → Bool)
    (files : Files S Text) where
  abbrev configured_transform : Option TransformConfig → String → Result LoadFailure SchemaTransform
  configured_transform none source_format = ok no_transform
  configured_transform (some config) source_format = from_config x is_blank config source_format

  abbrev configured_overrides :
      Option (List OverrideEntry) → Result LoadFailure (List FieldOverride)
  configured_overrides none = ok []
  configured_overrides (some entries) = from_entries x entries

  -- The directive of a pinned path, by what reading the file gives.
  unfoldable pub pinned_directive :
      String
      → DriftPolicy
      → SchemaTransform
      → List FieldOverride
      → Result ReadError Text
      → Result LoadFailure SchemaDirective
  unfolding from_yaml
  pinned_directive path policy transform overrides (ok pin_text) =
      from_yaml x yaml pin_text >>= λ pin.
      ok (SchemaDirective.pinned path pin policy transform overrides)
  pinned_directive path policy transform overrides (err ReadError.not_found) =
      ok (SchemaDirective.pin_inferred path transform overrides)
  pinned_directive path policy transform overrides (err (ReadError.other error)) = err (record {
    code = "pinned_schema_read_failed";
    message = join "" ("failed to read pinned schema " ∷ path ∷ ": " ∷ error ∷ []);
  })

  abbrev directive_at :
      Option String
      → DriftPolicy
      → SchemaTransform
      → List FieldOverride
      → S
      → Result LoadFailure SchemaDirective
  directive_at none policy transform overrides s = ok (SchemaDirective.inferred transform overrides)
  directive_at (some path) policy transform overrides s =
      pinned_directive path policy transform overrides (files.read_to_string path s)

  -- The rest of `resolve_schema_directive`, once the transform is known.
  unfoldable pub block_directive :
      SchemaTransform → Option SchemaConfig → S → Result LoadFailure SchemaDirective
  unfolding check_schema_config drift_policy_of pinned_directive from_entries
  block_directive transform none s = ok (SchemaDirective.inferred transform [])
  block_directive transform (some config) s =
      check_schema_config config
      >> (drift_policy_of config.drift_policy >>= λ policy.
          configured_overrides config.overrides >>= λ overrides.
          directive_at config.pinned_path policy transform overrides s)

  unfoldable pub resolve_schema_directive :
      Option SchemaConfig → Option TransformConfig → String → S → Result LoadFailure SchemaDirective
  unfolding block_directive from_config
  resolve_schema_directive schema_config transform_config source_format s =
      configured_transform transform_config source_format >>= λ transform.
      block_directive transform schema_config s

  abbrev pin_write_failure : String → String → LoadFailure
  pin_write_failure path error = record {
    code = "pinned_schema_write_failed";
    message = join "" ("failed to persist pinned schema " ∷ path ∷ ": " ∷ error ∷ []);
  }

  abbrev write_pin : PinnedSchemaWrite Text → S → Result LoadFailure Unit × S
  write_pin write s =
      let (result, s') = files.write write.pinned_path write.yaml s in
      (map_err (pin_write_failure write.pinned_path) result, s')

  unfoldable pub persist_pinned_schema : PinnedSchemaWrite Text → S → Result LoadFailure Unit × S
  persist_pinned_schema write s = elim (files.parent write.pinned_path) [
    | none ↦ write_pin write s
    | some parent ↦
        let (created, s') = files.create_dir_all parent s in
        elim created [
          | ok u ↦ write_pin write s'
          | err error ↦ (err (pin_write_failure write.pinned_path error), s')
        ]
  ]
