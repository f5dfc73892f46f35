-- ===== src/Schema/Timestamp.antt =====
-- The strict clock menu of src/schema.rs: `parse_datetime_prefix`, `parse_offset_seconds` and the
-- two timestamp parsers, over bytes.
pub mod Discipline
use Prim.Native.Nat.{ℕ, zero, suc}
use data_spark.Prelude.{
  ◌+◌, ◌-◌, ◌*◌, ◌/◌, ◌^◌, Bool, true, false, not, ◌&&◌, ◌||◌, Option, none, some, List, [], ◌∷◌,
  ltb, leb, ◌==◌, if◌then◌else◌, length, get_elem?, take, drop,
}
use data_spark.Prelude.Int.{ℤ, pos, negsuc, neg_ℤ, times_ℕ, sub_ℤ}
use data_spark.Schema.TypeName.{Bytes, bytes, same_bytes, is_ascii_digit, ◌>>=◌}
use data_spark.Schema.Externals.{Externals}

-- `&bytes[from..to]`
abbrev pub slice : ℕ → ℕ → Bytes → Bytes
slice from to text = take (to - from) (drop from text)

-- Fields have at most six digits, so the `u32` does not overflow.
unfoldable pub fixed_digits : ℕ → Bytes → Option ℕ
fixed_digits value [] = some value
fixed_digits value (b ∷ text) = elim (is_ascii_digit b) [
  | true ↦ fixed_digits (value * 10 + (b - b'0')) text
  | false ↦ none
]

unfoldable pub parse_fixed_digits : Bytes → Option ℕ
unfolding fixed_digits
parse_fixed_digits text = fixed_digits 0 text

-- `bytes.get(i) == Some(&b)`
abbrev pub byte_is : ℕ → ℕ → Bytes → Bool
byte_is i b text = elim (get_elem? text i) [ none ↦ false | some c ↦ c == b ]

-- `take_while(is_ascii_digit).count()`
unfoldable pub count_digits : Bytes → ℕ
count_digits [] = 0
count_digits (b ∷ text) = elim (is_ascii_digit b) [ true ↦ suc (count_digits text) | false ↦ 0 ]

-- The microseconds of the fraction, and where the offset starts.
unfoldable pub fraction : Bytes → Option (ℕ × ℕ)
unfolding count_digits parse_fixed_digits
fraction text =
    if byte_is 19 b'.' text
    then (let digit_count = count_digits (drop 20 text) in
        if digit_count == 0 || ltb 6 digit_count then none else do
          value ← parse_fixed_digits (slice 20 (20 + digit_count) text)
          some (value * 10 ^ (6 - digit_count), 20 + digit_count))
    else some (0, 19)

unfoldable pub has_separators : Bytes → Bool
has_separators text =
    byte_is 4 b'-' text
    && (byte_is 7 b'-' text
        && ((byte_is 10 b' ' text || (byte_is 10 b'T' text || byte_is 10 b't' text))
            && (byte_is 13 b':' text && byte_is 16 b':' text)))

unfoldable pub parse_offset_seconds : Bytes → Option ℤ
unfolding parse_fixed_digits
parse_offset_seconds text =
    if same_bytes text (bytes "Z") || same_bytes text (bytes "z")
    then some (pos 0)
    else if not (length text == 6) || not (byte_is 3 b':' text)
    then none
    else if not (byte_is 0 b'+' text || byte_is 0 b'-' text)
    then none
    else do
      hours ← parse_fixed_digits (slice 1 3 text)
      minutes ← parse_fixed_digits (slice 4 6 text)
      let seconds = pos (hours * 3600 + minutes * 60)
      if ltb 23 hours || ltb 59 minutes
          then none
          else some (if byte_is 0 b'+' text then seconds else neg_ℤ seconds)

abbrev pub is_empty : Bytes → Bool
is_empty [] = true
is_empty (b ∷ text) = false

-- `checked_mul`, `checked_sub` of `i64` values
abbrev pub checked_i64 : ℤ → Option ℤ
checked_i64 (pos n) = if leb n (2 ^ 63 - 1) then some (pos n) else none
checked_i64 (negsuc n) = if leb n (2 ^ 63 - 1) then some (negsuc n) else none

module _ (x : Externals) where
  unfoldable pub parse_datetime_prefix : Bytes → Option (ℤ × Bytes)
  unfolding parse_fixed_digits has_separators fraction
  parse_datetime_prefix text = if ltb (length text) 19 then none else do
    year ← parse_fixed_digits (slice 0 4 text)
    month ← parse_fixed_digits (slice 5 7 text)
    day ← parse_fixed_digits (slice 8 10 text)
    hour ← parse_fixed_digits (slice 11 13 text)
    minute ← parse_fixed_digits (slice 14 16 text)
    second ← parse_fixed_digits (slice 17 19 text)
    parts ← (if has_separators text then fraction text else none)
    micros ← x.timestamp_micros year month day hour minute second parts.0
    some (micros, drop parts.1 text)

  unfoldable pub parse_timestamp_micros : Bytes → Option ℤ
  unfolding parse_datetime_prefix
  parse_timestamp_micros text = do
    prefix ← parse_datetime_prefix text
    if is_empty prefix.1 then some prefix.0 else none

  -- The product of an offset in seconds never overflows; the difference is checked.
  unfoldable pub parse_timestamptz_micros : Bytes → Option ℤ
  unfolding parse_datetime_prefix parse_offset_seconds
  parse_timestamptz_micros text = do
    prefix ← parse_datetime_prefix text
    offset_seconds ← parse_offset_seconds prefix.1
    offset ← checked_i64 (times_ℕ offset_seconds 1000000)
    checked_i64 (sub_ℤ prefix.0 offset)
