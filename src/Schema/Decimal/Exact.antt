-- ===== src/Schema/Decimal/Exact.antt =====
-- The decimal parser of src/schema.rs against arithmetic on unbounded numbers.
use native.Mathlib.Nat.{pow-le-pow_right, one-le-pow, pow-zero, pow-suc}
use data_spark.Prelude.{
  ℕ, zero, suc, ◌+◌, ◌-◌, ◌*◌, ◌^◌, ◌≤◌, Bool, Option, none, some, [], ◌∷◌, ◌++◌, ◌≡◌, refl, ap,
  arith, ltb, if◌then◌else◌, length,
}
use data_spark.Prelude.Int.{ℤ, pos, negsuc, times_ℕ, magnitude}
use data_spark.Schema.TypeName.{Bytes, ◌>>=◌}
use data_spark.Schema.Decimal.{
  i128_max, checked, accumulate, pad, bounded_decimal, with_sign, scaled_value, split_plain_decimal,
  parse_decimal_scaled, rescale_decimal_integer,
}

-- The number that digits spell, after the digits read so far.
abbrev pub digits_value : ℕ → Bytes → ℕ
digits_value n [] = n
digits_value n (b ∷ digits) = digits_value (n * 10 + (b - b'0')) digits

-- A magnitude below 10^precision, with its sign.
abbrev pub within : Bool → ℕ → ℕ → Option ℤ
within negative n precision = if ltb n (10 ^ precision) then some (with_sign negative n) else none

-- The value of split text over unbounded numbers.
abbrev pub exact_value : Bool → Bytes → Bytes → ℕ → ℕ → Option ℤ
exact_value negative integer_digits fraction_digits precision scale =
    if ltb scale (length fraction_digits)
    then none
    else within negative
        (digits_value 0 (integer_digits ++ fraction_digits) * 10 ^ (scale - length fraction_digits))
        precision

le-digits_value : (n : ℕ) (digits : Bytes) → n ≤ digits_value n digits
le-digits_value n [] = omega arith
le-digits_value n (b ∷ digits) = omega (arith, le-digits_value (n * 10 + (b - b'0')) digits)

accumulate_lem :
    (n : ℕ) (digits : Bytes) → n ≤ i128_max → accumulate n digits ≡ checked (digits_value n digits)
unfolding accumulate
accumulate_lem n [] h = ground arith
accumulate_lem n (b ∷ digits) h = ground (
  arith,
  accumulate_lem (n * 10 + (b - b'0')) digits,
  le-digits_value (n * 10 + (b - b'0')) digits,
)

le-mul_pow : (n k : ℕ) → n ≤ n * 10 ^ k
le-mul_pow n k = grind (arith, one-le-pow k 10 (omega arith))

pad_lem : (k n : ℕ) → n ≤ i128_max → pad k n ≡ checked (n * 10 ^ k)
unfolding pad
pad_lem zero n h = rw (pow-zero 10) (ground arith)
pad_lem (suc k) n h =
    let shift : n * 10 ^ suc k ≡ n * 10 * 10 ^ k =
      omega (arith, ap (λ (t : ℕ). n * t) (pow-suc 10 k)) in
    rw shift (ground (arith, pad_lem k (n * 10), le-mul_pow (n * 10) k))

bounded_lem :
    (negative : Bool) (n precision : ℕ)
    → bounded_decimal (with_sign negative n) precision ≡ within negative n precision
unfolding bounded_decimal
bounded_lem negative n precision = ground (arith, one-le-pow precision 10 (omega arith))

-- A value that overflows `i128` is out of every declarable precision.
pow_bound : (precision : ℕ) → precision ≤ 38 → 10 ^ precision ≤ i128_max
pow_bound precision h =
    let top : 10 ^ precision ≤ 10 ^ 38 =
      pow-le-pow_right {n = 10} (omega arith) {i = precision} {j = 38} h in
    omega arith

checked-within :
    (negative : Bool) (n precision : ℕ)
    → precision ≤ 38
    → (checked n >>= λ m. within negative m precision) ≡ within negative n precision
checked-within negative n precision h = ground (arith, pow_bound precision h)

scaled_value-eq_exact :
    (negative : Bool) (integer_digits fraction_digits : Bytes) (precision scale : ℕ)
    → precision ≤ 38
    → scaled_value negative integer_digits fraction_digits precision scale
      ≡ exact_value negative integer_digits fraction_digits precision scale
unfolding scaled_value
scaled_value-eq_exact negative integer_digits fraction_digits precision scale h =
    let digits = integer_digits ++ fraction_digits in
    let n = digits_value 0 digits in
    let k = scale - length fraction_digits in
    rw (accumulate_lem 0 digits (omega arith)) (
      ground (
        arith,
        pad_lem k n,
        le-mul_pow n k,
        bounded_lem negative (n * 10 ^ k) precision,
        pow_bound precision h,
      ))

-- For a precision of at most 38, decimal text of any length has exactly the value that its digits
-- spell over unbounded numbers, scaled by the missing fractional digits, if the fraction is no
-- longer than the scale and the magnitude is below 10^precision, and otherwise none: no
-- intermediate overflow of `i128` is ever mistaken for a value or rejects one in range.
pub parse_decimal_scaled-eq_exact :
    (text : Bytes) (precision scale : ℕ)
    → precision ≤ 38
    → parse_decimal_scaled text precision scale
      ≡ (split_plain_decimal text >>= λ parts. exact_value parts.0 parts.1 parts.2 precision scale)
unfolding parse_decimal_scaled
parse_decimal_scaled-eq_exact text precision scale h = go (split_plain_decimal text)
  where
    go :
        (o : Option (Bool × Bytes × Bytes))
        → (o >>= λ parts. scaled_value parts.0 parts.1 parts.2 precision scale)
          ≡ (o >>= λ parts. exact_value parts.0 parts.1 parts.2 precision scale)
    go none = refl
    go (some (negative, integer_digits, fraction_digits)) =
        scaled_value-eq_exact negative integer_digits fraction_digits precision scale h

-- A JSON integer fits a declared decimal exactly if its magnitude times 10^scale is below
-- 10^precision, for every scale up to the precision and every precision up to 38; it is then stored
-- as its product with 10^scale.
pub rescale_decimal_integer-eq_exact :
    (value : ℤ) (precision scale : ℕ)
    → precision ≤ 38
    → scale ≤ precision
    → rescale_decimal_integer value precision scale ≡ (
        if ltb (magnitude value * 10 ^ scale) (10 ^ precision)
        then some (times_ℕ value (10 ^ scale))
        else none)
unfolding rescale_decimal_integer bounded_decimal
rescale_decimal_integer-eq_exact (pos n) precision scale h k = ground (
  arith,
  pow_bound precision h,
  pow_bound scale (omega arith),
  one-le-pow precision 10 (omega arith),
  one-le-pow scale 10 (omega arith),
)
rescale_decimal_integer-eq_exact (negsuc n) precision scale h k = ground (
  arith,
  pow_bound precision h,
  pow_bound scale (omega arith),
  one-le-pow precision 10 (omega arith),
  one-le-pow scale 10 (omega arith),
)
