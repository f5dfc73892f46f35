-- ===== src/Schema/Decimal.antt =====
-- Decimal text of src/schema.rs: `split_plain_decimal`, `parse_decimal_scaled`,
-- `rescale_decimal_integer` and `bounded_decimal`, with the checked arithmetic of `i128`.
pub mod Exact
use data_spark.Prelude.{
  ℕ, zero, suc, ◌+◌, ◌-◌, ◌*◌, ◌^◌, Bool, true, false, not, ◌&&◌, ◌||◌, Option, none, some, List,
  [], ◌∷◌, ◌++◌, ltb, leb, ◌==◌, if◌then◌else◌, length,
}
use data_spark.Prelude.Int.{ℤ, pos, negsuc, ltb_ℤ, neg_ℤ, times_ℕ}
use data_spark.Json.{Number}
use data_spark.Schema.TypeName.{Bytes, all_digits, split_once, ◌>>=◌}

abbrev pub i128_max : ℕ
i128_max = 2 ^ 127 - 1

-- `checked_mul`, `checked_add` of values that are not negative
abbrev pub checked : ℕ → Option ℕ
checked n = if leb n i128_max then some n else none

abbrev is_empty : Bytes → Bool
is_empty [] = true
is_empty (b ∷ s) = false

-- The digits before and after the point: `None` where a point has no digit after it.
unfoldable pub digit_parts : Bytes → Option (Bytes × Bytes)
unfolding split_once
digit_parts unsigned = elim (split_once b'.' unsigned) [
  | none ↦ some (unsigned, [])
  | some (before, after) ↦ if is_empty after then none else some (before, after)
]

unfoldable pub plain_digits : Bool → Option (Bytes × Bytes) → Option (Bool × Bytes × Bytes)
unfolding all_digits
plain_digits negative none = none
plain_digits negative (some (integer_digits, fraction_digits)) =
    if is_empty integer_digits
      || (not (all_digits integer_digits) || not (all_digits fraction_digits))
    then none
    else some (negative, integer_digits, fraction_digits)

unfoldable pub split_plain_decimal : Bytes → Option (Bool × Bytes × Bytes)
unfolding digit_parts plain_digits
split_plain_decimal [] = none
split_plain_decimal (b ∷ rest) =
    if b == b'-'
    then plain_digits true (digit_parts rest)
    else if b == b'+'
    then plain_digits false (digit_parts rest)
    else plain_digits false (digit_parts (b ∷ rest))

-- The loop over the digits.
unfoldable pub accumulate : ℕ → Bytes → Option ℕ
accumulate scaled [] = some scaled
accumulate scaled (b ∷ digits) = elim (checked (scaled * 10) >>= λ n. checked (n + (b - b'0'))) [
  | none ↦ none
  | some n ↦ accumulate n digits
]

-- The loop over the missing fractional digits.
unfoldable pub pad : ℕ → ℕ → Option ℕ
pad zero scaled = some scaled
pad (suc missing) scaled = elim (checked (scaled * 10)) [ none ↦ none | some n ↦ pad missing n ]

-- `10_i128.pow` does not overflow for a precision of at most 38.
unfoldable pub bounded_decimal : ℤ → ℕ → Option ℤ
bounded_decimal scaled precision =
    let bound = 10 ^ precision in
    if ltb_ℤ (neg_ℤ (pos bound)) scaled && ltb_ℤ scaled (pos bound) then some scaled else none

abbrev with_sign : Bool → ℕ → ℤ
with_sign negative scaled = if negative then neg_ℤ (pos scaled) else pos scaled

-- The value of split text, once the fraction is known to be short enough.
unfoldable pub scaled_value : Bool → Bytes → Bytes → ℕ → ℕ → Option ℤ
unfolding accumulate pad bounded_decimal
scaled_value negative integer_digits fraction_digits precision scale =
    if ltb scale (length fraction_digits) then none else do
      digits ← accumulate 0 (integer_digits ++ fraction_digits)
      scaled ← pad (scale - length fraction_digits) digits
      bounded_decimal (with_sign negative scaled) precision

unfoldable pub parse_decimal_scaled : Bytes → ℕ → ℕ → Option ℤ
unfolding split_plain_decimal scaled_value
parse_decimal_scaled text precision scale = do
  parts ← split_plain_decimal text
  scaled_value parts.0 parts.1 parts.2 precision scale

-- `checked_mul` of a signed value
abbrev in_i128 : ℤ → Bool
in_i128 (pos n) = leb n i128_max
in_i128 (negsuc n) = leb n i128_max

unfoldable pub rescale_decimal_integer : ℤ → ℕ → ℕ → Option ℤ
unfolding bounded_decimal
rescale_decimal_integer value precision scale = do
  power ← checked (10 ^ scale)
  scaled ← (let product = times_ℕ value power in if in_i128 product then some product else none)
  bounded_decimal scaled precision

-- `as_i64`, then `as_u64`: the integer a JSON number spells, if it spells one.
unfoldable pub json_integer : Number → Option ℤ
json_integer (Number.pos n) = some (pos n)
json_integer (Number.neg n) = some (negsuc n)
json_integer (Number.float bits) = none
