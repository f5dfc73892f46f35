-- ===== src/Schema/Transform/Accepted.antt =====
-- What a transform that `from_config` of src/schema.rs accepts guarantees.
use data_spark.Prelude.{
  ◌≤◌, String, Bool, true, false, not, Option, none, some, List, [], ◌∷◌, map, ◌≡◌, refl, subst,
  inl, inr, All, length, ltb, Bool-cases, arith, str_eq,
}
use data_spark.Prelude.Names.{contains, Distinct, Fresh, Fresh-cons}
use data_spark.Prelude.Outcome.{Result, ok, ◌>>◌, bind-ok, ok-injective}
use data_spark.Failure.{LoadFailure}
use data_spark.Schema.Externals.{Externals}
use data_spark.Schema.Directive.{FlattenEntry, SchemaTransform, dataset_name}
use data_spark.Schema.Transform.{
  TransformConfig, fail_when, flatten_entries, config_flatten, check_select, config_rename,
  check_renames, check_outputs_selected, check_dataset_names, other_targets, check_names,
  from_config, outputs_of, unselected, split_dots,
}

abbrev pub targets_of : List (String × String) → List String
targets_of rename = map (λ pair. pair.1) rename

-- Names that the configuration determines: with a select list, the names that its fields get;
-- without one, those that the flatten outputs get, apart from the targets of other renames.
abbrev pub NamesDiffer : Option (List String) → List FlattenEntry → List (String × String) → Type 0
NamesDiffer (some select) flatten rename =
    All (λ output. contains output select ≡ true) (outputs_of flatten)
    × Distinct (map (λ source. dataset_name rename source) select)
NamesDiffer none flatten rename =
    Distinct (map (λ output. dataset_name rename output) (outputs_of flatten))
    × Fresh (other_targets (outputs_of flatten) rename)
        (map (λ output. dataset_name rename output) (outputs_of flatten))

abbrev pub IsRename : Option (List String) → String × String → Type 0
IsRename select pair = (str_eq pair.0 pair.1 ≡ false) × (unselected select pair.0 ≡ false)

-- The first two facts: flatten paths have two segments at least, and outputs differ. Then the
-- renames: each changes a name, a selected one under a select list, and their targets differ.
abbrev pub IsAccepted : SchemaTransform → Type 0
IsAccepted t =
    All (λ entry. 2 ≤ length entry.segments) t.flatten
    × Distinct (outputs_of t.flatten)
    × All (IsRename t.select) t.rename
    × Distinct (targets_of t.rename)
    × NamesDiffer t.select t.flatten t.rename

pub guard-ok :
    {A : Type 0} (b : Bool) (parts : List String) (m : Result LoadFailure A) (a : A)
    → (fail_when b parts >> m) ≡ ok a
    → (b ≡ false) × (m ≡ ok a)
guard-ok true parts m a h = absurd (cc h)
guard-ok false parts m a h = (refl, h)

module _ (x : Externals) (is_blank : String → Bool) where
  flatten_entries-lem :
      (seen : List String) (pairs : List (String × String)) (flatten : List FlattenEntry)
      → flatten_entries x is_blank seen pairs ≡ ok flatten
      → Fresh seen (outputs_of flatten)
        × Distinct (outputs_of flatten)
        × All (λ entry. 2 ≤ length entry.segments) flatten
  unfolding flatten_entries
  flatten_entries-lem seen [] [] h = (tt, tt, tt)
  flatten_entries-lem seen [] (e ∷ es) h = absurd (cc h)
  flatten_entries-lem seen ((path, output) ∷ pairs) flatten h =
      let (long, h1) = guard-ok (ltb (length (split_dots path)) 2) _ _ flatten h in
      let (full, h2) = guard-ok (contains "" (split_dots path)) _ _ flatten h1 in
      let (named, h3) = guard-ok (is_blank output) _ _ flatten h2 in
      let (new, h4) = guard-ok (contains output seen) _ _ flatten h3 in
      let (entries, e, h5) =
        bind-ok (flatten_entries x is_blank (output ∷ seen) pairs) _ flatten h4 in
      let (fresh, distinct, longs) = flatten_entries-lem (output ∷ seen) pairs entries e in
      let (once, free) = (Fresh-cons output seen (outputs_of entries)).0 fresh in
      subst
        (λ es.
          Fresh seen (outputs_of es)
          × Distinct (outputs_of es)
          × All (λ entry. 2 ≤ length entry.segments) es)
        (ok-injective _ flatten h5) ((new, free), (once, distinct), (ground (arith, long), longs))

  config_flatten-lem :
      (config : Option (List (String × String))) (format : String) (flatten : List FlattenEntry)
      → config_flatten x is_blank config format ≡ ok flatten
      → Distinct (outputs_of flatten) × All (λ entry. 2 ≤ length entry.segments) flatten
  unfolding config_flatten
  config_flatten-lem none format [] h = (tt, tt)
  config_flatten-lem none format (e ∷ es) h = absurd (cc h)
  config_flatten-lem (some []) format flatten h = absurd (ground arith)
  config_flatten-lem (some (p ∷ ps)) format flatten h = elim (Bool-cases (str_eq format "csv")) [
    | inl e ↦ absurd (ground arith)
    | inr e ↦
        let (fresh, distinct, longs) = flatten_entries-lem [] (p ∷ ps) flatten (ground arith) in
        (distinct, longs)
  ]

  check_renames-lem :
      (seen : List String) (select : Option (List String)) (rename : List (String × String))
      → check_renames x is_blank seen select rename ≡ ok tt
      → Fresh seen (targets_of rename) × Distinct (targets_of rename) × All (IsRename select) rename
  unfolding check_renames
  check_renames-lem seen select [] h = (tt, tt, tt)
  check_renames-lem seen select ((source, target) ∷ rename) h =
      let (named, h1) = guard-ok (is_blank target) _ _ tt h in
      let (changed, h2) = guard-ok (str_eq source target) _ _ tt h1 in
      let (new, h3) = guard-ok (contains target seen) _ _ tt h2 in
      let (selected, h4) = guard-ok (unselected select source) _ _ tt h3 in
      let (fresh, distinct, rs) = check_renames-lem (target ∷ seen) select rename h4 in
      let (once, free) = (Fresh-cons target seen (targets_of rename)).0 fresh in
      ((new, free), (once, distinct), ((changed, selected), rs))

  check_dataset_names-lem :
      (blocks : String) (rename : List (String × String)) (seen sources : List String)
      → check_dataset_names x is_blank blocks rename seen sources ≡ ok tt
      → Fresh seen (map (λ source. dataset_name rename source) sources)
        × Distinct (map (λ source. dataset_name rename source) sources)
  unfolding check_dataset_names
  check_dataset_names-lem blocks rename seen [] h = (tt, tt)
  check_dataset_names-lem blocks rename seen (source ∷ sources) h =
      let name = dataset_name rename source in
      let (new, h1) = guard-ok (contains name seen) _ _ tt h in
      let (fresh, distinct) = check_dataset_names-lem blocks rename (name ∷ seen) sources h1 in
      let (once, free) =
        (Fresh-cons name seen (map (λ source. dataset_name rename source) sources)).0 fresh in
      ((new, free), (once, distinct))

  check_outputs_selected-lem :
      (select : List String) (flatten : List FlattenEntry)
      → check_outputs_selected x is_blank select flatten ≡ ok tt
      → All (λ output. contains output select ≡ true) (outputs_of flatten)
  unfolding check_outputs_selected
  check_outputs_selected-lem select [] h = tt
  check_outputs_selected-lem select (entry ∷ flatten) h =
      let (listed, h1) = guard-ok (not (contains entry.output select)) _ _ tt h in
      (ground (arith, listed), check_outputs_selected-lem select flatten h1)

  check_names-NamesDiffer :
      (select : Option (List String)) (flatten : List FlattenEntry)
      (rename : List (String × String))
      → check_names x is_blank select flatten rename ≡ ok tt
      → NamesDiffer select flatten rename
  unfolding check_names
  check_names-NamesDiffer none flatten rename h =
      let (fresh, distinct) =
        check_dataset_names-lem _ rename (other_targets (outputs_of flatten) rename)
          (outputs_of flatten) h in
      (distinct, fresh)
  check_names-NamesDiffer (some select) flatten rename h =
      let (u, e, h1) = bind-ok (check_outputs_selected x is_blank select flatten) _ tt h in
      (
        check_outputs_selected-lem select flatten e,
        (check_dataset_names-lem _ rename [] select h1).1,
      )

  -- A transform that is accepted has flatten paths of two segments at least and distinct outputs; each rename changes a name, no two to the same target; under a select list every rename key and every flatten output is selected and the selected fields get distinct dataset names, and without one the flatten outputs get distinct dataset names, none of them the target of a rename of another field.
  pub from_config-IsAccepted :
      (config : TransformConfig) (source_format : String) (transform : SchemaTransform)
      → from_config x is_blank config source_format ≡ ok transform
      → IsAccepted transform
  unfolding from_config
  from_config-IsAccepted config source_format transform h =
      let (set, h0) = guard-ok _ _ _ transform h in
      let (flatten, e, h1) =
        bind-ok (config_flatten x is_blank config.flatten source_format) _ transform h0 in
      let (u, f, h2) = bind-ok (check_select x is_blank config.select) _ transform h1 in
      let (rename, g, h3) = bind-ok (config_rename x is_blank config.rename) _ transform h2 in
      let (v, i, h4) = bind-ok (check_renames x is_blank [] config.select rename) _ transform h3 in
      let (w, j, h5) =
        bind-ok (check_names x is_blank config.select flatten rename) _ transform h4 in
      let (distinct, longs) = config_flatten-lem config.flatten source_format flatten e in
      let (fresh, targets, rs) = check_renames-lem [] config.select rename i in
      subst IsAccepted (ok-injective _ transform h5)
        (longs, distinct, rs, targets, check_names-NamesDiffer config.select flatten rename j)
