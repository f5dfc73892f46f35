-- ===== src/Schema/Observe.antt =====
-- The type that a value shows in src/schema.rs: `infer_text_type`, `infer_json_type` and their
-- helpers. A text is read by the bytes of its UTF-8.
use Prim.Native.Char.{code}
use data_spark.Prelude.{
  ℕ, ◌+◌, ◌-◌, ◌*◌, ◌/◌, ◌%◌, ◌^◌, String, Bool, true, false, ◌&&◌, ◌||◌, Option, none, some, [],
  ◌∷◌, ◌++◌, ltb, leb, ◌==◌, if◌then◌else◌,
}
use data_spark.Prelude.Int.{ℤ, pos, neg_ℤ}
use data_spark.Json.{Value, Number}
use data_spark.Schema.TypeName.{Bytes, bytes, same_bytes, is_ascii_digit, all_digits}
use data_spark.Schema.Types.{InferredType}
use data_spark.Schema.Externals.{Externals}

-- The UTF-8 of one character.
abbrev pub encode : ℕ → Bytes
encode c =
    if ltb c 128
    then c ∷ []
    else if ltb c 2048
    then (192 + c / 64) ∷ (128 + c % 64) ∷ []
    else if ltb c 65536
    then (224 + c / 4096) ∷ (128 + c / 64 % 64) ∷ (128 + c % 64) ∷ []
    else (240 + c / 262144) ∷ (128 + c / 4096 % 64) ∷ (128 + c / 64 % 64) ∷ (128 + c % 64) ∷ []

-- `as_bytes`
unfoldable pub utf8 : String → Bytes
utf8 String.[] = []
utf8 (String.◌∷◌ c s) = encode (code c) ++ utf8 s

unfoldable pub parse_bool : Bytes → Option Bool
parse_bool value =
    if same_bytes value (bytes "true")
      || (same_bytes value (bytes "TRUE") || same_bytes value (bytes "True"))
    then some true
    else if same_bytes value (bytes "false")
        || (same_bytes value (bytes "FALSE") || same_bytes value (bytes "False"))
    then some false
    else none

-- `strip_prefix(['+', '-']).unwrap_or(value)`
abbrev pub unsigned : Bytes → Bytes
unsigned [] = []
unsigned (b ∷ rest) = if b == b'+' || b == b'-' then rest else b ∷ rest

abbrev padded : Bytes → Bool
padded (b ∷ next ∷ rest) = b == b'0' && is_ascii_digit next
padded _ = false

unfoldable pub is_zero_padded : Bytes → Bool
is_zero_padded value = padded (unsigned value)

-- The value of digits.
unfoldable pub digits_number : ℕ → Bytes → ℕ
digits_number n [] = n
digits_number n (b ∷ rest) = digits_number (n * 10 + (b - b'0')) rest

-- Digits spelling at most `bound`, at least one.
unfoldable pub spells_up_to : ℕ → Bytes → Bool
unfolding all_digits digits_number
spells_up_to bound [] = false
spells_up_to bound (b ∷ rest) = all_digits (b ∷ rest) && leb (digits_number 0 (b ∷ rest)) bound

-- `value.parse::<i64>().is_ok()`
unfoldable pub parses_i64 : Bytes → Bool
unfolding spells_up_to
parses_i64 [] = false
parses_i64 (b ∷ rest) =
    if b == b'-'
    then spells_up_to (2 ^ 63) rest
    else if b == b'+'
    then spells_up_to (2 ^ 63 - 1) rest
    else spells_up_to (2 ^ 63 - 1) (b ∷ rest)

-- The value of digits after the sign.
abbrev signed : Bytes → ℤ
signed [] = pos 0
signed (b ∷ rest) =
    if b == b'-'
    then neg_ℤ (pos (digits_number 0 rest))
    else if b == b'+'
    then pos (digits_number 0 rest)
    else pos (digits_number 0 (b ∷ rest))

-- `value.parse::<i64>().ok()`
unfoldable pub parse_i64 : Bytes → Option ℤ
unfolding parses_i64 digits_number
parse_i64 value = if parses_i64 value then some (signed value) else none

abbrev is_some : {A : Type 0} → Option A → Bool
is_some none = false
is_some (some a) = true

unfoldable pub infer_text_type : Externals → Bytes → InferredType
unfolding parse_bool is_zero_padded parses_i64
infer_text_type x value =
    if is_some (parse_bool value)
    then InferredType.boolean
    else if is_zero_padded value
    then InferredType.utf8
    else if parses_i64 value
    then InferredType.int64
    else if x.is_finite_f64 value
    then InferredType.float64
    else InferredType.utf8

-- `Number::is_i64`
abbrev pub is_i64 : Number → Bool
is_i64 (Number.pos n) = leb n (2 ^ 63 - 1)
is_i64 (Number.neg n) = true
is_i64 (Number.float bits) = false

unfoldable pub infer_json_type : Value → InferredType
infer_json_type Value.null = InferredType.null
infer_json_type (Value.bool b) = InferredType.boolean
infer_json_type (Value.number n) = if is_i64 n then InferredType.int64 else InferredType.float64
infer_json_type (Value.string s) = InferredType.utf8
infer_json_type (Value.array _) = InferredType.utf8
infer_json_type (Value.object _) = InferredType.utf8
