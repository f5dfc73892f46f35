-- ===== src/Retry/Report.antt =====
-- How src/retry.rs reports the attempt log: `unit_order`, `report_value` and
-- `report_when_attempted`.
use mathlib.Core.List.{Perm}
use data_spark.Prelude.{
  ℕ, Bool, true, ◌&&◌, ◌||◌, Option, none, some, List, [], ◌∷◌, map, ◌≡◌, arith, String, ltb, leb,
  ◌==◌, ◌⊎◌,
}
use data_spark.Prelude.Names.{String-set}
use data_spark.Json.{Value, Fields, string, object, array, field, no_fields, items_of, uint}
use data_spark.Retry.{RetryPolicy, RetryUnit, RetryAttempt, begin, write_chunk}
use data_spark.Retry.Sort.{sort, AllDiffer, sort-eq_of_perm}

-- The key `(u8, u64, u64)`, compared lexicographically.
abbrev pub unit_order : RetryUnit → ℕ → ℕ × ℕ × ℕ
unit_order begin attempt = (0, 0, attempt)
unit_order (write_chunk chunk_index) attempt = (1, chunk_index, attempt)

abbrev pub key_le : ℕ × ℕ × ℕ → ℕ × ℕ × ℕ → Bool
key_le (a, b, c) (a', b', c') = ltb a a' || (a == a' && (ltb b b' || (b == b' && leb c c')))

unfoldable pub attempt_le : RetryAttempt → RetryAttempt → Bool
attempt_le x y = key_le (unit_order x.unit x.attempt) (unit_order y.unit y.attempt)

abbrev operation_of : RetryUnit → String
operation_of begin = "begin"
operation_of (write_chunk chunk_index) = "write_chunk"

abbrev chunk_field : RetryUnit → Fields → Fields
chunk_field begin rest = rest
chunk_field (write_chunk chunk_index) rest = field "chunk_index" (uint chunk_index) rest

abbrev delay_field : Option ℕ → Fields
delay_field none = no_fields
delay_field (some delay_ms) = field "delay_before_retry_ms" (uint delay_ms) no_fields

unfoldable pub attempt_value : RetryAttempt → Value
attempt_value a = object (
    field "operation" (string (operation_of a.unit)) (
      chunk_field a.unit (
        field "attempt" (uint a.attempt) (
          field "error"
            (object (field "code" (string a.code) (field "message" (string a.message) no_fields)))
            (delay_field a.delay_before_retry_ms)))))

unfoldable pub report_value : RetryPolicy → List RetryAttempt → Value
unfolding sort attempt_le
report_value policy attempts =
    let ordered = sort attempt_le attempts in
    object (
      field "max_attempts" (uint policy.max_attempts) (
        field "initial_delay_ms" (uint policy.initial_delay_ms) (
          field "max_delay_ms" (uint policy.max_delay_ms)
            (field "attempts" (array (items_of (map attempt_value ordered))) no_fields))))

unfoldable pub report_when_attempted : RetryPolicy → List RetryAttempt → Option Value
report_when_attempted policy [] = none
report_when_attempted policy (a ∷ rest) = some (report_value policy (a ∷ rest))

key_total : (x y : ℕ × ℕ × ℕ) → (key_le x y ≡ true) ⊎ (key_le y x ≡ true)
key_total (a, b, c) (a', b', c') = ground arith

key_trans : (x y z : ℕ × ℕ × ℕ) → key_le x y ≡ true → key_le y z ≡ true → key_le x z ≡ true
key_trans (a, b, c) (a', b', c') (a'', b'', c'') h k = ground arith

attempt_total : (x y : RetryAttempt) → (attempt_le x y ≡ true) ⊎ (attempt_le y x ≡ true)
unfolding attempt_le
attempt_total x y = key_total (unit_order x.unit x.attempt) (unit_order y.unit y.attempt)

attempt_trans :
    (x y z : RetryAttempt) → attempt_le x y ≡ true → attempt_le y z ≡ true → attempt_le x z ≡ true
unfolding attempt_le
attempt_trans x y z =
    key_trans (unit_order x.unit x.attempt) (unit_order y.unit y.attempt)
      (unit_order z.unit z.attempt)

RetryAttempt-set : IsSet RetryAttempt
RetryAttempt-set = hlevel String-set

-- Two logs with the same entries, no two of which have the same position (operation, chunk index and
-- attempt), are reported as the same value.
pub report_value-eq_of_perm :
    (policy : RetryPolicy) {xs ys : List RetryAttempt}
    → Perm xs ys
    → AllDiffer attempt_le xs
    → report_value policy xs ≡ report_value policy ys
unfolding report_value
report_value-eq_of_perm policy {xs} {ys} p h =
    rw (sort-eq_of_perm attempt_le attempt_total attempt_trans RetryAttempt-set p h)
