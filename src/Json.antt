-- ===== src/Json.antt =====
-- `serde_json::Value`: the values that sources carry and reports are built from. A number is one
-- of serde_json's three representations: a `u64`, a negative `i64` (`neg n` is -(n + 1)), or a
-- float by its 64-bit pattern. An object lists its entries.
use Prim.Native.Nat.{ℕ}
use mathlib.Core.Bool.{Bool}
use mathlib.Core.Option.{Option, none, some}
use mathlib.Core.List.{List, [], ◌∷◌}
use text.Mathlib.Text.{◌==◌ as str_eq}
use Prim.Native.String.{String}
use data_spark.Prelude.{if◌then◌else◌}

pub data Number : Type 0 where
  pos : ℕ → Number
  neg : ℕ → Number
  float : ℕ → Number

mutual
  pub data Value : Type 0 where
    null : Value
    bool : Bool → Value
    number : Number → Value
    string : String → Value
    object : Fields → Value
    array : Items → Value

  -- The entries of an object, in order.
  pub data Fields : Type 0 where
    no_fields : Fields
    field : (key : String) (value : Value) (rest : Fields) → Fields

  -- The elements of an array.
  pub data Items : Type 0 where
    no_items : Items
    item : (head : Value) (rest : Items) → Items

-- `json!([..])` of a list of values
unfoldable pub items_of : List Value → Items
items_of [] = no_items
items_of (v ∷ vs) = item v (items_of vs)

-- `Map::get`
unfoldable pub get : String → Fields → Option Value
get key no_fields = none
get key (field name value rest) = if str_eq name key then some value else get key rest

-- `json!(n)` of an unsigned integer
abbrev pub uint : ℕ → Value
uint n = number (pos n)

-- `Map::insert`: the entry with this key is replaced where it stands, or a new one comes last.
unfoldable pub insert : String → Value → Fields → Fields
insert key value no_fields = field key value no_fields
insert key value (field name old rest) =
    let later = insert key value rest in
    if str_eq name key then field name value rest else field name old later

-- `decision[key] = value` of an object; of another value, which no decision is, it panics.
unfoldable pub set : String → Value → Value → Value
unfolding insert
set key value (object fields) = object (insert key value fields)
set key value other = other
