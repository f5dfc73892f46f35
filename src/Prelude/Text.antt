-- ===== src/Prelude/Text.antt =====
-- The decimal spelling of an unsigned integer, as `format!("{n}")` writes it, and the `str` helpers
-- that messages use.
use Prim.Native.Nat.{ℕ, zero, suc, ◌/◌, ◌%◌}
use Prim.Native.String.{String, ◌++◌}
use mathlib.Core.List.{List, [], ◌∷◌}
use data_spark.Prelude.Tests.{◌==◌, if◌then◌else◌}

abbrev digit : ℕ → String
digit d =
    if d == 0
    then "0"
    else if d == 1
    then "1"
    else if d == 2
    then "2"
    else if d == 3
    then "3"
    else if d == 4
    then "4"
    else if d == 5
    then "5"
    else if d == 6
    then "6"
    else if d == 7
    then "7"
    else if d == 8
    then "8"
    else "9"

-- A number of at most `places` digits, with no leading zero.
show_places : ℕ → ℕ → String
show_places zero n = ""
show_places (suc places) n =
    let front = show_places places (n / 10) in
    if n / 10 == 0 then digit n else front ++ digit (n % 10)

-- A `u64` has at most twenty digits.
unfoldable pub show : ℕ → String
unfolding show_places
show n = show_places 20 n

-- `[..].join(separator)`
unfoldable pub join : String → List String → String
join separator [] = ""
join separator (s ∷ []) = s
join separator (s ∷ t ∷ rest) = s ++ separator ++ join separator (t ∷ rest)
