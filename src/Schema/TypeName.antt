-- ===== src/Schema/TypeName.antt =====
-- The spelling of field types in src/schema.rs: `FieldType::name`, `parse_type_name` and the
-- canonical `decimal(p,s)`. Texts are the lists of their bytes.
pub mod RoundTrip
pub mod Text
use Prim.Native.Char.{code}
use data_spark.Prelude.{
  ℕ, zero, suc, ◌+◌, ◌-◌, ◌*◌, ◌/◌, ◌%◌, String, Bool, true, false, not, ◌&&◌, ◌||◌, Option, none,
  some, List, [], ◌∷◌, ◌++◌, ltb, leb, ◌==◌, if◌then◌else◌, length, u8_max,
}
use data_spark.Schema.Types.{FieldType}

abbrev pub Bytes : Type 0
Bytes = List ℕ

-- The bytes of an ASCII text.
abbrev pub bytes : String → Bytes
bytes String.[] = []
bytes (String.◌∷◌ c s) = code c ∷ bytes s

abbrev pub same_bytes : Bytes → Bytes → Bool
same_bytes [] [] = true
same_bytes (a ∷ s) (b ∷ t) = a == b && same_bytes s t
same_bytes _ _ = false

-- `format!("{n}")` of a `u8`
unfoldable pub show_u8 : ℕ → Bytes
show_u8 n =
    if ltb n 10
    then (b'0' + n) ∷ []
    else if ltb n 100
    then (b'0' + n / 10) ∷ (b'0' + n % 10) ∷ []
    else (b'0' + n / 100) ∷ (b'0' + n / 10 % 10) ∷ (b'0' + n % 10) ∷ []

-- `FieldType::name`
unfoldable pub name : FieldType → Bytes
unfolding show_u8
name FieldType.boolean = bytes "boolean"
name FieldType.int64 = bytes "int64"
name FieldType.float64 = bytes "float64"
name FieldType.utf8 = bytes "utf8"
name FieldType.timestamp = bytes "timestamp"
name FieldType.timestamptz = bytes "timestamptz"
name (FieldType.decimal precision scale) =
    bytes "decimal(" ++ (show_u8 precision ++ (b',' ∷ (show_u8 scale ++ (b')' ∷ []))))

abbrev pub is_ascii_digit : ℕ → Bool
is_ascii_digit b = leb b'0' b && leb b b'9'

unfoldable pub all_digits : Bytes → Bool
all_digits [] = true
all_digits (b ∷ s) = is_ascii_digit b && all_digits s

-- `text.parse::<u8>()` on ASCII digits: `None` where the value passes 255.
unfoldable pub parse_u8 : ℕ → Bytes → Option ℕ
parse_u8 n [] = some n
parse_u8 n (b ∷ s) =
    let n' = n * 10 + (b - b'0') in let rest = parse_u8 n' s in if ltb u8_max n' then none else rest

unfoldable pub parse_canonical_u8 : Bytes → Option ℕ
unfolding all_digits parse_u8
parse_canonical_u8 [] = none
parse_canonical_u8 (b ∷ s) =
    if not (all_digits (b ∷ s))
    then none
    else if ltb 1 (length (b ∷ s)) && b == b'0'
    then none
    else parse_u8 0 (b ∷ s)

-- `strip_prefix`
unfoldable pub strip_prefix : Bytes → Bytes → Option Bytes
strip_prefix [] text = some text
strip_prefix (p ∷ prefix) [] = none
strip_prefix (p ∷ prefix) (b ∷ text) =
    let rest = strip_prefix prefix text in if p == b then rest else none

-- `strip_suffix` of one byte
unfoldable pub strip_last : ℕ → Bytes → Option Bytes
strip_last c [] = none
strip_last c (b ∷ []) = if b == c then some [] else none
strip_last c (b ∷ b' ∷ text) = elim (strip_last c (b' ∷ text)) [
  | none ↦ none
  | some front ↦ some (b ∷ front)
]

-- `split_once` at the first such byte
unfoldable pub split_once : ℕ → Bytes → Option (Bytes × Bytes)
split_once c [] = none
split_once c (b ∷ text) = elim (b == c) [
  | true ↦ some ([], text)
  | false ↦ elim (split_once c text) [
    | none ↦ none
    | some (before, after) ↦ some (b ∷ before, after)
  ]
]

infixl 5 ◌>>=◌
abbrev pub ◌>>=◌ : {A B : Type 0} → Option A → (A → Option B) → Option B
none >>= f = none
some a >>= f = f a

-- The bounds of a declarable decimal.
unfoldable pub bounded : ℕ → ℕ → Option FieldType
bounded precision scale =
    if not (leb 1 precision && leb precision 38) || ltb precision scale
    then none
    else some (FieldType.decimal precision scale)

unfoldable pub parse_decimal_type_name : Bytes → Option FieldType
unfolding strip_prefix strip_last split_once parse_canonical_u8 bounded
parse_decimal_type_name text = do
  opened ← strip_prefix (bytes "decimal(") text
  parameters ← strip_last b')' opened
  split ← split_once b',' parameters
  precision ← parse_canonical_u8 split.0
  scale ← parse_canonical_u8 split.1
  bounded precision scale

unfoldable pub parse_type_name : Bytes → Option FieldType
unfolding parse_decimal_type_name
parse_type_name text =
    if same_bytes text (bytes "boolean")
    then some FieldType.boolean
    else if same_bytes text (bytes "int64")
    then some FieldType.int64
    else if same_bytes text (bytes "float64")
    then some FieldType.float64
    else if same_bytes text (bytes "utf8")
    then some FieldType.utf8
    else if same_bytes text (bytes "timestamp")
    then some FieldType.timestamp
    else if same_bytes text (bytes "timestamptz")
    then some FieldType.timestamptz
    else parse_decimal_type_name text
