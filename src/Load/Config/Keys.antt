-- ===== src/Load/Config/Keys.antt =====
-- Which merge keys and bounds a load definition of src/lib.rs resolves to.
use data_spark.Prelude.{
  ℕ, ◌≤◌, String, Option, none, some, List, [], ◌∷◌, ◌≡◌, ◌≢◌, refl, ap, sym, subst, ◌↔◌, inl, inr,
  Bool-cases, arith,
}
use data_spark.Prelude.Names.{contains, Distinct, Fresh, Fresh-cons, Fresh-none}
use data_spark.Prelude.Outcome.{ok, bind-ok, ok-injective}
use data_spark.LoadMode.{LoadMode}
use data_spark.Schema.Externals.{Externals}
use data_spark.Load.Config.{
  MergeConfig, RetryConfig, ExecutionConfig, check_keys, validate_merge_config, resolve_chunk_rows,
  resolve_retry_policy, resolve_parallelism,
}

-- The keys of a load: those of its merge block, at least one and each once, if it merges, and none
-- with no merge block otherwise.
abbrev pub IsKeys : LoadMode → Option MergeConfig → List String → Type 0
IsKeys LoadMode.merge none keys = ⊥
IsKeys LoadMode.merge (some merge) keys = (keys ≡ merge.keys) × (keys ≢ []) × Distinct keys
IsKeys LoadMode.full_refresh merge keys = (merge ≡ none) × (keys ≡ [])
IsKeys LoadMode.append merge keys = (merge ≡ none) × (keys ≡ [])

module _ (x : Externals) where
  check_keys_iff :
      (seen keys : List String)
      → (check_keys x seen keys ≡ ok tt) ↔ (Fresh seen keys × Distinct keys)
  unfolding check_keys
  check_keys_iff seen [] = (λ h. (tt, tt), λ h. refl)
  check_keys_iff seen (key ∷ keys) = elim (Bool-cases (contains key seen)) [
    | inl e ↦ (λ h. absurd (ground (arith, h, e)), λ h. absurd (cc (e, h.0.0)))
    | inr new ↦ (
      λ h.
          let (fresh, distinct) = (check_keys_iff (key ∷ seen) keys).0 (ground (arith, h, new)) in
          let (once, free) = (Fresh-cons key seen keys).0 fresh in ((new, free), (once, distinct)),
      λ h.
          rw (new, check_keys)
            ((check_keys_iff (key ∷ seen) keys).1
              ((Fresh-cons key seen keys).1 (h.1.0, h.0.1), h.1.1)),
    )
  ]

  usable_iff :
      (listed keys : List String)
      → (validate_merge_config x LoadMode.merge (some (record { keys = listed })) ≡ ok keys)
        ↔ ((keys ≡ listed) × (keys ≢ []) × Distinct keys)
  unfolding validate_merge_config
  usable_iff [] keys = (λ h. absurd (cc h), λ h. absurd (h.1 h.0))
  usable_iff (key ∷ more) keys = (
    λ h.
        let (u, e, f) = bind-ok (check_keys x [] (key ∷ more)) (λ _. ok (key ∷ more)) keys h in
        let same = ok-injective (key ∷ more) keys f in
        (sym same, λ n. cc (same, n), subst Distinct same ((check_keys_iff [] (key ∷ more)).0 e).1),
    λ h.
        rw
          (
            (check_keys_iff [] (key ∷ more)).1 (Fresh-none (key ∷ more), subst Distinct h.0 h.2),
            check_keys,
          )
          (ap ok (sym h.0)),
  )

  -- A merge load is accepted exactly with a merge block whose keys are at least one, each once, and has those keys; a load of another mode is accepted exactly without a merge block, and has no keys.
  pub validate_merge_config_iff :
      (mode : LoadMode) (merge : Option MergeConfig) (keys : List String)
      → (validate_merge_config x mode merge ≡ ok keys) ↔ IsKeys mode merge keys
  unfolding validate_merge_config
  validate_merge_config_iff LoadMode.merge none keys = (λ h. absurd (cc h), λ h. absurd h)
  validate_merge_config_iff LoadMode.merge (some merge) keys = usable_iff merge.keys keys
  validate_merge_config_iff LoadMode.full_refresh none keys = ground arith
  validate_merge_config_iff LoadMode.full_refresh (some merge) keys = ground arith
  validate_merge_config_iff LoadMode.append none keys = ground arith
  validate_merge_config_iff LoadMode.append (some merge) keys = ground arith

-- The numbers that parsing has found to be at least 1, where they are set.
abbrev pub Positive : Option ℕ → Type 0
Positive none = Unit
Positive (some n) = 1 ≤ n

abbrev pub IsParsedRetry : Option RetryConfig → Type 0
IsParsedRetry none = Unit
IsParsedRetry (some retry) = Positive retry.max_attempts

abbrev pub IsParsed : Option ExecutionConfig → Type 0
IsParsed none = Unit
IsParsed (some execution) =
    Positive execution.chunk_rows × Positive execution.parallelism × IsParsedRetry execution.retry

positive-policy :
    (execution : Option ExecutionConfig)
    → IsParsed execution
    → 1 ≤ (resolve_retry_policy execution).max_attempts
unfolding resolve_retry_policy
positive-policy none h = omega arith
positive-policy (some execution) (rows, bound, retry) = ground (arith, retry)

-- What an execution block resolves to is in bounds: at least one attempt, at least one row in a chunk, and a parallelism from 1 to the connector's limit, where the limit and every number set in the block are at least 1.
pub resolve_bounds :
    (execution : Option ExecutionConfig) (limit : ℕ)
    → IsParsed execution
    → 1 ≤ limit
    → (1 ≤ (resolve_retry_policy execution).max_attempts)
      × (1 ≤ resolve_chunk_rows execution)
      × (1 ≤ resolve_parallelism execution limit)
      × (resolve_parallelism execution limit ≤ limit)
unfolding resolve_chunk_rows resolve_parallelism
resolve_bounds none limit h pos = (positive-policy none h, omega arith, pos, omega arith)
resolve_bounds (some execution) limit h pos =
    (positive-policy (some execution) h, ground (arith, h), ground (arith, h, pos), ground arith)
